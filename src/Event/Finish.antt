-- ===== src/Event/Finish.antt =====
-- transaction_commit and transaction_abort of kernel/event.c.
use glass_os.Prelude.{
  ℕ, ◌+◌, ◌^◌, ◌≤◌, ◌<◌, ◌≡◌, ◌≢◌, refl, sym, ◌∙◌, inl, inr, some, List, [], ◌∷◌, length, arith,
  ◌==◌, Bool-cases, text, if◌then◌else◌,
}
use glass_os.Text.{Text, copy_field}
use glass_os.Kernel.{Kernel, Event, EventResult, Journal, TransactionRecord}
use glass_os.Object.{object_revision, object_set_state_direct}
use glass_os.Event.{
  transaction_capacity, transaction_find, update_transaction, transaction_name, set_end_event,
  record_entry, make_event, event_record_kind, event_find, finish_transaction,
}
use glass_os.Event.Ledger.{Below, Below-mono, Below-update, find-update_transaction, IsLedger}
use glass_os.Event.Ring.{event_find-retained}
use glass_os.Event.Sequence.{
  IsJournal, record_entry-IsJournal, IsJournal-relabel, next-record_entry, find-record_entry_self,
}

pub length-update_transaction :
    (id : ℕ) (f : TransactionRecord → TransactionRecord) (ts : List TransactionRecord)
    → length (update_transaction id f ts) ≡ length ts
unfolding update_transaction
length-update_transaction id f [] = refl
length-update_transaction id f (t ∷ ts) = ground (arith, length-update_transaction id f ts)

module _ (status operation : Text) (result : EventResult) (policy : Text) (id : ℕ) (k : Kernel)
    {t : TransactionRecord} (known : transaction_find id k.journal.transactions ≡ some t) where
  abbrev pub close : TransactionRecord → TransactionRecord
  close x = record x {
    committed_revision = object_revision t.target k.registry;
    status = copy_field 16 status;
  }

  abbrev pub closing : Kernel
  closing = record k {
    journal = record k.journal {
      current_transaction = id;
      transactions = update_transaction id close k.journal.transactions;
    };
  }

  abbrev pub end_event : Event
  end_event =
      make_event t.actor (transaction_name id) operation result t.end_event policy
        (text "transaction") closing

  abbrev pub seq : ℕ
  seq = k.journal.next_sequence

  abbrev pub ended : Journal
  ended = record (record_entry end_event closing.journal) {
    current_transaction = k.journal.current_transaction;
  }

  pub finish_known : finish_transaction status operation result policy id k ≡ (
    seq,
    record k {
      registry = object_set_state_direct (transaction_name id) status seq k.registry;
      journal = ended;
      serial =
          (event_record_kind t.actor
            (transaction_name id)
            operation
            result
            t.end_event
            policy
            (text "transaction")
            closing).1.serial;
    },
  )
  unfolding finish_transaction event_record_kind make_event
  finish_known = rw (finish_transaction, known)

  -- The record of the transaction once it is closed by the event `seq`.
  abbrev pub closed : TransactionRecord
  closed = set_end_event seq (close t)

  pub find-ended :
      (other : ℕ)
      → transaction_find other ended.transactions
        ≡ (if id == other then some closed else transaction_find other k.journal.transactions)
  unfolding record_entry make_event
  find-ended other = elim (Bool-cases (id == other)) [
    | inl e ↦
        let same : other ≡ id = ground arith in simp find-update_transaction (rw (e, same, known))
    | inr e ↦ simp find-update_transaction (rw e)
  ]

  module _ (v : IsLedger k.journal) (no_wrap : seq + 1 < 2 ^ 64) where
    closing-IsJournal : IsJournal closing.journal
    closing-IsJournal =
        IsJournal-relabel id k.journal.current_sequence
          (update_transaction id close k.journal.transactions) v.journal

    recorded-IsJournal : IsJournal (record_entry end_event closing.journal)
    unfolding make_event
    recorded-IsJournal = record_entry-IsJournal end_event closing-IsJournal refl no_wrap

    next-ended : ended.next_sequence ≡ seq + 1
    unfolding make_event
    next-ended = next-record_entry end_event closing-IsJournal refl no_wrap

    ended-IsLedger : IsLedger ended
    ended-IsLedger = record {
      journal =
          IsJournal-relabel k.journal.current_transaction
            (record_entry end_event closing.journal).current_sequence
            (record_entry end_event closing.journal).transactions recorded-IsJournal;
      ids = rw next-ended (Below-mono seq (seq + 1) ended.transactions (omega arith) ids_kept);
      slots = slots_kept;
    }
      where
        ids_kept : Below seq ended.transactions
        ids_kept =
            unfold record_entry make_event in
            Below-update seq id (set_end_event seq)
              (update_transaction id close k.journal.transactions) (λ x. refl)
              (Below-update seq id close k.journal.transactions (λ x. refl) v.ids)

        slots_kept : length ended.transactions ≤ transaction_capacity
        slots_kept =
            unfold record_entry make_event in
            omega (
              arith,
              v.slots,
              length-update_transaction id close k.journal.transactions,
              length-update_transaction id (set_end_event seq)
                  (update_transaction id close k.journal.transactions),
            )

    find_end_event : event_find seq ended ≡ some end_event
    unfolding make_event
    find_end_event =
        event_find-retained seq ended-IsLedger.journal.ring
        ∙ sym (event_find-retained seq recorded-IsJournal.ring)
        ∙ find-record_entry_self end_event closing-IsJournal refl no_wrap

    -- transaction_commit and transaction_abort on a known id of a valid ledger with sequences left:
    -- the record gets the status, the revision that its target has, and the closing event as its
    -- end; that event can be found, belongs to the transaction and has the transaction's last event
    -- for a parent; the record of every other id, and the current transaction, are what they were,
    -- and the ledger is valid.
    pub finish_transaction_lem :
        let (ev, k') = finish_transaction status operation result policy id k in
        (ev ≡ k.journal.next_sequence)
        × (event_find ev k'.journal ≡ some end_event)
        × (end_event.transaction_id ≡ id)
        × (end_event.parent_event ≡ t.end_event)
        × (transaction_find id k'.journal.transactions ≡ some closed)
        × ((other : ℕ)
            → other ≢ id
            → transaction_find other k'.journal.transactions
              ≡ transaction_find other k.journal.transactions)
        × (k'.journal.current_transaction ≡ k.journal.current_transaction)
        × IsLedger k'.journal
    unfolding make_event
    finish_transaction_lem = rw finish_known (
      refl,
      find_end_event,
      refl,
      refl,
      find-ended id ∙ ground arith,
      λ other ne. find-ended other ∙ ground arith,
      refl,
      ended-IsLedger,
    )
