-- ===== src/Tests/Events.antt =====
-- The journal and its transactions.
use glass_os.Prelude.{
  ltb, ◌==◌, if◌then◌else◌, ℕ, get_elem?, ◌+◌, ◌≡◌, ◌≢◌, some, none, text, [], ◌∷◌, ◌++◌,
}
use glass_os.Kernel.{Event, event_ok, event_fault, TransactionRecord}
use glass_os.Event.{
  event_init, event_record_kind, event_find, push_entry, blank_event, event_capacity,
  transaction_begin, transaction_find, finish_transaction, event_at,
}
use glass_os.Event.Ring.{retained, newest, retained-push_entry, event_at-retained}
use glass_os.Event.Sequence.{IsJournal, event_init-IsJournal}
use glass_os.Event.Record.{recorded, event_record_kind-IsJournal, find-event_record_kind}
use glass_os.Event.Ledger.{IsLedger}
use glass_os.Event.Finish.{closed, end_event, finish_transaction_lem}
use glass_os.Event.Transaction.{begin_event, opened, transaction_begin_lem}
use glass_os.Tests.Sample.{
  kernel, kernel-IsJournal, kernel_sequences, kernel_first, kernel-IsLedger, kernel_slots,
  open_transaction, busy, busy-IsLedger, busy_sequences, busy_found,
}

retained-push_entry_example :
    retained (push_entry blank_event event_init) ≡ newest (retained event_init ++ blank_event ∷ [])
retained-push_entry_example = retained-push_entry blank_event event_init-IsJournal.ring

event_at-retained_example : event_at 0 event_init ≡ get_elem? (retained event_init) 0
event_at-retained_example = event_at-retained event_init-IsJournal.ring 0

abbrev fault : Event
fault =
    recorded (text "cpu") (text "kernel") (text "exception") event_fault 0 (text "deny:fault")
      (text "action") kernel

event_record_kind-IsJournal_example :
    let (seq, k') =
      event_record_kind
        (text "cpu")
        (text "kernel")
        (text "exception")
        event_fault
        0
        (text "deny:fault")
        (text "action")
        kernel in
    IsJournal k'.journal
    × (seq ≡ kernel.journal.next_sequence)
    × (k'.journal.next_sequence ≡ seq + 1)
    × (retained k'.journal ≡ newest (retained kernel.journal ++ fault ∷ []))
event_record_kind-IsJournal_example =
    event_record_kind-IsJournal (text "cpu") (text "kernel") (text "exception") event_fault 0
      (text "deny:fault") (text "action") kernel kernel-IsJournal kernel_sequences

find-event_record_kind_example :
    let (seq, k') =
      event_record_kind
        (text "cpu")
        (text "kernel")
        (text "exception")
        event_fault
        0
        (text "deny:fault")
        (text "action")
        kernel in
    (seq ≡ kernel.journal.next_sequence)
    × (event_find 1 k'.journal ≡ (
        if 1 == seq
        then some fault
        else if ltb seq (1 + event_capacity)
        then event_find 1 kernel.journal
        else none))
find-event_record_kind_example =
    find-event_record_kind (text "cpu") (text "kernel") (text "exception") event_fault 0
      (text "deny:fault") (text "action") kernel 1 kernel-IsJournal kernel_sequences kernel_first

transaction_begin_lem_example :
    let (tx, k') = transaction_begin (text "shell") (text "system") 1 kernel in
    (tx ≡ kernel.journal.next_sequence)
    × (event_find tx k'.journal ≡ some (begin_event (text "shell") (text "system") 1 kernel))
    × ((begin_event (text "shell") (text "system") 1 kernel).transaction_id ≡ tx)
    × (transaction_find tx k'.journal.transactions
        ≡ some (opened (text "shell") (text "system") 1 kernel))
    × ((opened (text "shell") (text "system") 1 kernel).id ≡ tx)
    × ((opened (text "shell") (text "system") 1 kernel).status ≡ text "open")
    × (k'.journal.current_transaction ≡ kernel.journal.current_transaction)
    × IsLedger k'.journal
transaction_begin_lem_example =
    transaction_begin_lem (text "shell") (text "system") 1 kernel kernel-IsLedger kernel_slots
      kernel_sequences

abbrev commit_event : Event
commit_event =
    end_event (text "committed") (text "commit") event_ok (text "allow:transaction") 3 busy
      busy_found

abbrev committed : TransactionRecord
committed =
    closed (text "committed") (text "commit") event_ok (text "allow:transaction") 3 busy busy_found

finish_transaction_lem_example :
    let (ev, k') =
      finish_transaction
        (text "committed")
        (text "commit")
        event_ok
        (text "allow:transaction")
        3
        busy in
    (ev ≡ busy.journal.next_sequence)
    × (event_find ev k'.journal ≡ some commit_event)
    × (commit_event.transaction_id ≡ 3)
    × (commit_event.parent_event ≡ open_transaction.end_event)
    × (transaction_find 3 k'.journal.transactions ≡ some committed)
    × ((other : ℕ)
        → other ≢ 3
        → transaction_find other k'.journal.transactions
          ≡ transaction_find other busy.journal.transactions)
    × (k'.journal.current_transaction ≡ busy.journal.current_transaction)
    × IsLedger k'.journal
finish_transaction_lem_example =
    finish_transaction_lem (text "committed") (text "commit") event_ok (text "allow:transaction") 3
      busy busy_found busy-IsLedger busy_sequences
