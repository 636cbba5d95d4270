-- ===== src/Report/Events.antt =====
-- The reports of kernel/event.c: an event, its causes, the history of a target, a transaction.
use glass_os.Prelude.{
  ℕ, zero, suc, ◌+◌, Bool, not, ◌&&◌, ◌||◌, Option, none, some, [], ◌∷◌, text, ◌==◌, if◌then◌else◌,
}
use glass_os.Text.{Text, text_equal, parse_decimal64}
use glass_os.Kernel.{Kernel, Event, TransactionRecord, M, ◌>>◌, pure}
use glass_os.Console.{str, num, printf}
use glass_os.Object.{object_id}
use glass_os.Event.{result_name, transaction_find, event_at, event_find}

abbrev pub event_count : Kernel → ℕ
event_count k = k.journal.count

-- The event_print of a pointer that is not null.
unfoldable pub print_event : Event → M (Unit {0})
print_event e = do
  printf (text "#%d tx=%d kind=%s tick=%d parent=%d target_rev=%d\n") (
      num e.sequence
      ∷ num e.transaction_id
      ∷ str e.kind
      ∷ num e.timestamp
      ∷ num e.parent_event
      ∷ num e.target_revision
      ∷ [])
  printf (text "  #%d %s -> #%d %s %s %s policy=%s\n") (
      num e.actor_object_id
      ∷ str e.actor
      ∷ num e.target_object_id
      ∷ str e.target
      ∷ str e.operation
      ∷ str (result_name e.result)
      ∷ str e.policy_decision
      ∷ [])

unfoldable pub event_print : Option Event → M (Unit {0})
event_print none = printf (text "Event not found.\n") []
event_print (some e) = print_event e

-- event_print_chain, which calls itself for the parent, to a depth of `rounds` calls.
unfoldable pub print_chain : ℕ → ℕ → M (Unit {0})
print_chain zero sequence k = (tt, k)
print_chain (suc rounds) sequence k = elim (event_find sequence k.journal) [
  | none ↦ printf (text "Event not found: %d\n") (num sequence ∷ []) k
  | some e ↦
      let (_, above) = print_chain rounds e.parent_event k in
      print_event e (if e.parent_event == 0 then k else above)
]

-- As deep as there are sequences.
unfoldable pub event_print_chain : ℕ → M (Unit {0})
unfolding print_chain
event_print_chain sequence k = print_chain k.journal.next_sequence sequence k

-- The test of the loop of event_print_history.
unfoldable pub in_history : Text → ℕ → Event → Bool
in_history target target_id e =
    text_equal e.target target
    || text_equal e.actor target
    || (not (target_id == 0) && (e.target_object_id == target_id || e.actor_object_id == target_id))

-- A loop over the ring with `rounds` indices left: it prints the events that pass the test, and
-- counts them in `shown`.
unfoldable pub print_selected : (Kernel → Event → Bool) → ℕ → ℕ → ℕ → M ℕ
print_selected test zero index shown k = (shown, k)
print_selected test (suc rounds) index shown k = elim (event_at index k.journal) [
  | none ↦ print_selected test rounds (index + 1) shown k
  | some e ↦
      let hit = test k e in
      print_selected test rounds (index + 1) (if hit then shown + 1 else shown)
        (if hit then (print_event e k).1 else k)
]

unfoldable pub event_print_history : Text → M (Unit {0})
event_print_history target k =
    let (shown, k') =
      print_selected (λ s e. in_history target (object_id target s.registry) e) k.journal.count 0 0
        k in
    if shown == 0 then printf (text "No events for: %s\n") (str target ∷ []) k' else (tt, k')

unfoldable pub print_transaction : TransactionRecord → ℕ → M (Unit {0})
print_transaction t transaction_id k =
    (do
      printf (text "transaction/%d actor=%s target=%s status=%s\n")
          (num t.id ∷ str t.actor ∷ str t.target ∷ str t.status ∷ [])
      printf (text "parent=%d started_revision=%d committed_revision=%d begin=%d end=%d\n") (
          num t.parent_event
          ∷ num t.started_revision
          ∷ num t.committed_revision
          ∷ num t.begin_event
          ∷ num t.end_event
          ∷ [])
      printf (text "events:\n") []
      print_selected (λ s e. e.transaction_id == transaction_id) k.journal.count 0 0
      pure tt)
      k

unfoldable pub event_print_transaction : ℕ → M (Unit {0})
event_print_transaction transaction_id k =
    elim (transaction_find transaction_id k.journal.transactions) [
      | none ↦ printf (text "Transaction not found: %d\n") (num transaction_id ∷ []) k
      | some t ↦ print_transaction t transaction_id k
    ]

-- The loop of event_print_transaction_name: what is left of the query behind the prefix, or behind
-- the byte at which it differs. The query moves on before the test does, past its NUL too, where it
-- reads on in memory; that rest is taken to be empty.
pub data Match : Type 0 where
  matched differs : Text → Match

strip_prefix : Text → Text → Match
strip_prefix query [] = Match.matched query
strip_prefix [] (p ∷ ps) = Match.differs []
strip_prefix (c ∷ cs) (p ∷ ps) =
    let rest = strip_prefix cs ps in if c == p then rest else Match.differs cs

unfoldable pub event_print_transaction_name : Text → M (Unit {0})
unfolding strip_prefix
event_print_transaction_name query = elim (strip_prefix query (text "transaction/")) [
  | matched rest ↦ event_print_transaction (parse_decimal64 rest)
  | differs rest ↦ printf (text "Transaction not found: %s\n") (str rest ∷ [])
]
