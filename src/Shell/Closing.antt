-- ===== src/Shell/Closing.antt =====
-- The transaction of a round of the shell's loop (kernel/main.c) at the end of the round.
use glass_os.Prelude.{
  ℕ, ◌<◌, ◌≡◌, refl, sym, ap, ◌∙◌, inl, inr, Bool, true, false, some, Bool-cases, List, [], ◌∷◌,
  ◌++◌, length, text, ◌==◌, arith, lt→leb-false, if◌then◌else◌,
}
use glass_os.Text.{Text, copy_field}
use glass_os.Kernel.{Kernel, EventResult, M, TransactionRecord}
use glass_os.Console.Output.{HasPolicy}
use glass_os.Event.{
  transaction_begin, transaction_find, finish_transaction, transaction_commit, transaction_abort,
  make_event, record_entry, set_end_event, event_record_kind, transaction_capacity,
}
use glass_os.Event.Finish.{length-update_transaction, finish_known, find-ended, closed}
use glass_os.Event.Transaction.{opened}
use glass_os.Quiet.{HasPolicy-Quiet, Quiet-refl}
use glass_os.Quiet.Bounded.{IsKnown, IsKnown-update}
use glass_os.Shell.{split_command}
use glass_os.Shell.Round.{
  Command, run_command, transaction_target, open_round, close_round, shell_round,
}
use glass_os.Shell.Effect.{Effect, nothing, set_key, add_rule, is_demo}
use glass_os.Shell.Commits.{commits}
use glass_os.Shell.Outcome.{run_command-commits}
use glass_os.Shell.Words.{spelled, spellings, command_of-spelled}
use glass_os.Shell.Rounds.{run_command-Effect, open_round-Quiet, command}

-- transaction_find gives a record with that status.
abbrev pub HasStatus : Text → ℕ → Kernel → Type 0
HasStatus status id k =
    (t : TransactionRecord) × (transaction_find id k.journal.transactions ≡ some t)
    × (t.status ≡ status)

finish_transaction-HasStatus :
    (status operation : Text) (result : EventResult) (policy : Text) (id : ℕ) (k : Kernel)
    → copy_field 16 status ≡ status
    → IsKnown id k.journal.transactions
    → HasStatus status id (finish_transaction status operation result policy id k).1
finish_transaction-HasStatus status operation result policy id k fits (t, known) =
    let e = finish_known status operation result policy id k known in
    let self : (id == id) ≡ true = ground arith in
    (
      closed status operation result policy id k known,
      ap (λ r. transaction_find id r.1.journal.transactions) e
          ∙ find-ended status operation result policy id k known id
          ∙ rw self refl,
      fits,
    )

-- A record that is appended is found, unless an older one has its id.
find-append_self :
    (id : ℕ) (ts : List TransactionRecord) (t : TransactionRecord)
    → t.id ≡ id
    → IsKnown id (ts ++ t ∷ [])
unfolding transaction_find
find-append_self id [] t e = (t, rw e (let self : (id == id) ≡ true = ground arith in rw self refl))
find-append_self id (x ∷ ts) t e = elim (Bool-cases (x.id == id)) [
  | inl same ↦ (x, rw same refl)
  | inr differs ↦ let (u, f) = find-append_self id ts t e in (u, rw differs f)
]

-- With room in the table, transaction_begin gives the id of a record that is there.
transaction_begin-IsKnown :
    (actor target : Text) (parent : ℕ) (k : Kernel)
    → length k.journal.transactions < transaction_capacity
    → IsKnown
        (transaction_begin actor target parent k).0
        (transaction_begin actor target parent k).1.journal.transactions
unfolding transaction_begin event_record_kind make_event record_entry
transaction_begin-IsKnown actor target parent k room = rw (lt→leb-false _ _ room) (
    IsKnown-update k.journal.next_sequence k.journal.next_sequence
      (set_end_event k.journal.next_sequence) _ (λ t. refl)
      (find-append_self k.journal.next_sequence k.journal.transactions
        (opened actor target parent k) refl))

module _ (source : Text) (enter : ℕ → ℕ → M (Unit {0})) where
  open_round-IsKnown :
      (word target : Text) (k : Kernel)
      → length k.journal.transactions < transaction_capacity
      → let ((command_event, transaction), k') = open_round source enter word target k in
        IsKnown transaction k'.journal.transactions
  unfolding open_round event_record_kind record_entry
  open_round-IsKnown word target k room =
      transaction_begin-IsKnown _ _ _ _
        (omega (arith, room, length-update_transaction _ (set_end_event _) k.journal.transactions))

  -- The records are kept by every command but `userdemo`.
  Effect-found :
      (c : Command) {k s : Kernel} (id : ℕ)
      → Effect c k s
      → IsKnown id k.journal.transactions
      → IsKnown id s.journal.transactions
  Effect-found c id (nothing q) h = q.evolves.found id h
  Effect-found c id (set_key a key v e f allowed q) h = q.evolves.found id h
  Effect-found c id (add_rule a allow x y z e allowed room q) h = q.evolves.found id h

  close_round-HasStatus :
      (transaction : ℕ) (ok : Bool) (boot_event : ℕ) (k : Kernel)
      → (transaction == 0) ≡ false
      → IsKnown transaction k.journal.transactions
      → HasStatus
          (if ok then text "committed" else text "aborted")
          transaction
          (close_round source enter transaction ok boot_event k).1
  unfolding close_round transaction_commit transaction_abort text copy_field
  close_round-HasStatus transaction ok boot_event k there known = elim (Bool-cases ok) [
    | inl f ↦ rw (there, f) (finish_transaction-HasStatus _ _ _ _ transaction k refl known)
    | inr f ↦ rw (there, f) (finish_transaction-HasStatus _ _ _ _ transaction k refl known)
  ]

  closed_transaction :
      (transaction : ℕ) (ok : Bool) (boot_event : ℕ) (k : Kernel)
      → (close_round source enter transaction ok boot_event k).1.journal.current_transaction ≡ 0
  unfolding close_round
  closed_transaction transaction ok boot_event k = refl

  closed_event :
      (transaction : ℕ) (ok : Bool) (boot_event : ℕ) (k : Kernel)
      → (close_round source enter transaction ok boot_event k).1.journal.current_sequence
        ≡ boot_event
  unfolding close_round
  closed_event transaction ok boot_event k = refl

  module _ (line : Text) (boot_event : ℕ) (k : Kernel) where
    abbrev word : Text
    word = (split_command line).0

    abbrev pub target : Text
    target = transaction_target word (split_command line).1

    abbrev opening : (ℕ × ℕ) × Kernel
    opening = open_round source enter word target k

    -- The command that the table of words gives for the line.
    abbrev pub reading : Command
    reading = spelled spellings word (split_command line).1

    command-reading : command source enter line boot_event k ≡ reading
    command-reading = command_of-spelled word (split_command line).1

    -- The sequence that names the transaction of the round.
    abbrev pub round_transaction : ℕ
    round_transaction = opening.0.1

    abbrev round_ok : Bool
    round_ok =
        (run_command source enter (command source enter line boot_event k) word target opening.0.0
          opening.1).0

    -- A round of the shell for any command line but `userdemo`, with a policy loaded and room in the
    -- table of transactions, where the sequences have not run over to 0. At its end the record of the
    -- round's transaction is in the table, its status is "committed" where the conditions below hold
    -- in the state before the round and "aborted" where they fail, no transaction is current, and the
    -- event of the boot is. `help`, `time`, `events`, `meminfo` and `ls`, and `cat` and `run`
    -- with an argument, are always committed, the last four even where the policy refuses them or they
    -- fail. `clear`, `window`,
    -- `inspect`, `expand`, `why` and `history` are committed exactly where the policy allows them, and
    -- so is `get` for a key that the configuration has. `set` needs a value, the right and a key that
    -- the configuration has. `policy show` needs the right to it; `policy allow` and `policy deny` need
    -- three words behind them, the right to change the policy and fewer than 64 rules in the table.
    -- Any other `policy` line and any other word are aborted, and so are `cat`, `run`, `get`, `set`,
    -- `inspect`, `expand`, `why` and `history` without an argument.
    pub shell_round-HasStatus :
        HasPolicy k
        → is_demo reading ≡ false
        → length k.journal.transactions < transaction_capacity
        → (round_transaction == 0) ≡ false
        → let k' = (shell_round source enter line boot_event k).1 in
          HasStatus
            (if commits reading target k then text "committed" else text "aborted")
            round_transaction
            k'
          × (k'.journal.current_transaction ≡ 0)
          × (k'.journal.current_sequence ≡ boot_event)
    unfolding shell_round
    shell_round-HasStatus ready plain room there =
        let not_demo : is_demo (command source enter line boot_event k) ≡ false =
          ap (λ c. is_demo c) command-reading ∙ plain in
        let opened_round = open_round-Quiet source enter word target k in
        let c = command source enter line boot_event k in
        let ran =
          run_command-Effect source enter c word target opening.0.0 (Quiet-refl {k = opening.1})
            (HasPolicy-Quiet opened_round ready) not_demo in
        let ok : round_ok ≡ commits reading target k =
          run_command-commits source enter opened_round ready c word target opening.0.0 not_demo
          ∙ ap (λ c. commits c target k) command-reading in
        (
          rw (sym ok) (
              close_round-HasStatus round_transaction round_ok boot_event _ there
                (Effect-found c round_transaction ran (open_round-IsKnown word target k room))),
          closed_transaction _ _ _ _,
          closed_event _ _ _ _,
        )
