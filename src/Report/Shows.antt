-- ===== src/Report/Shows.antt =====
-- The reports of kernel/event.c as operations that print.
use glass_os.Prelude.{ℕ, zero, suc, ◌+◌, inl, inr, Bool, Option-cases, [], ◌∷◌, text, ◌==◌}
use glass_os.Text.{Text, parse_decimal64}
use glass_os.Kernel.{Kernel, Event, TransactionRecord, M}
use glass_os.Console.Output.{
  Prints, Prints-refl, Prints-trans, printf-Prints, if-Prints, if_state-Prints,
}
use glass_os.Console.{printf, str}
use glass_os.Event.{event_at, event_find, transaction_find}
use glass_os.Report.Events.{
  Match, matched, differs, print_event, print_chain, event_print_chain, print_selected,
  event_print_history, print_transaction, event_print_transaction, event_print_transaction_name,
}

print_event-Prints : (e : Event) (k : Kernel) → Prints k (print_event e k).1
unfolding print_event
print_event-Prints e k = Prints-trans (printf-Prints _ _ k) (printf-Prints _ _ _)

print_selected-Prints :
    (test : Kernel → Event → Bool) (rounds index shown : ℕ) (k : Kernel)
    → Prints k (print_selected test rounds index shown k).1
unfolding print_selected
print_selected-Prints test zero index shown k = Prints-refl k
print_selected-Prints test (suc rounds) index shown k =
    elim (Option-cases (event_at index k.journal)) [
      | inl e ↦ rw (print_selected, e) (print_selected-Prints test rounds (index + 1) shown k)
      | inr (e, at) ↦
          rw (print_selected, at)
            (Prints-trans (if_state-Prints (test k e) _ _ (print_event-Prints e k) (Prints-refl k))
              (print_selected-Prints test rounds (index + 1) _ _))
    ]

pub event_print_history-Prints :
    (target : Text) (k : Kernel) → Prints k (event_print_history target k).1
unfolding event_print_history
event_print_history-Prints target k =
    Prints-trans (print_selected-Prints _ k.journal.count 0 0 k)
      (if-Prints _ _ _ (printf-Prints _ _ _) (Prints-refl _))

print_transaction-Prints :
    (t : TransactionRecord) (id : ℕ) (k : Kernel) → Prints k (print_transaction t id k).1
unfolding print_transaction
print_transaction-Prints t id k = Prints-trans (printf-Prints _ _ k) (
    Prints-trans (printf-Prints _ _ _)
      (Prints-trans (printf-Prints _ _ _) (print_selected-Prints _ k.journal.count 0 0 _)))

pub event_print_transaction-Prints :
    (id : ℕ) (k : Kernel) → Prints k (event_print_transaction id k).1
unfolding event_print_transaction
event_print_transaction-Prints id k =
    elim (Option-cases (transaction_find id k.journal.transactions)) [
      | inl e ↦ rw (event_print_transaction, e) (printf-Prints _ _ k)
      | inr (t, e) ↦ rw (event_print_transaction, e) (print_transaction-Prints t id k)
    ]

print_stripped-Prints :
    (m : Match) (k : Kernel)
    → Prints k
        ((elim m as (λ x. M (Unit {0})) [
          | matched rest ↦ event_print_transaction (parse_decimal64 rest)
          | differs rest ↦ printf (text "Transaction not found: %s\n") (str rest ∷ [])
        ])
          k).1
print_stripped-Prints (Match.matched rest) k =
    event_print_transaction-Prints (parse_decimal64 rest) k
print_stripped-Prints (Match.differs rest) k = printf-Prints _ _ k

pub event_print_transaction_name-Prints :
    (query : Text) (k : Kernel) → Prints k (event_print_transaction_name query k).1
unfolding event_print_transaction_name
event_print_transaction_name-Prints query k = print_stripped-Prints _ k

print_chain-Prints : (rounds sequence : ℕ) (k : Kernel) → Prints k (print_chain rounds sequence k).1
unfolding print_chain
print_chain-Prints zero sequence k = Prints-refl k
print_chain-Prints (suc rounds) sequence k = elim (Option-cases (event_find sequence k.journal)) [
  | inl e ↦ rw (print_chain, e) (printf-Prints _ _ k)
  | inr (e, at) ↦
      rw (print_chain, at)
        (Prints-trans
          (if_state-Prints (e.parent_event == 0) _ _ (Prints-refl k)
            (print_chain-Prints rounds e.parent_event k))
          (print_event-Prints e _))
]

pub event_print_chain-Prints :
    (sequence : ℕ) (k : Kernel) → Prints k (event_print_chain sequence k).1
unfolding event_print_chain
event_print_chain-Prints sequence k = print_chain-Prints k.journal.next_sequence sequence k
