-- ===== src/Event/Transaction.antt =====
-- transaction_begin of kernel/event.c.
use glass_os.Prelude.{
  ℕ, ◌+◌, ◌^◌, ◌≤◌, ◌<◌, ◌≡◌, refl, sym, ◌∙◌, some, [], ◌∷◌, ◌++◌, length, length-append, arith,
  lt→leb-false, le→leb, text,
}
use glass_os.Text.{Text, copy_field}
use glass_os.Kernel.{Kernel, Event, event_ok, Journal, Registry, TransactionRecord}
use glass_os.Object.{object_revision, object_register, object_id}
use glass_os.Event.{
  transaction_capacity, transaction_find, transaction_name, new_transaction, set_end_event,
  record_entry, make_event, event_record_kind, event_find, transaction_begin,
}
use glass_os.Event.Ledger.{
  Below-mono, Below-snoc, update_transaction-fresh, transaction_find-fresh, IsLedger,
}
use glass_os.Event.Ring.{event_find-retained}
use glass_os.Event.Sequence.{
  IsJournal, record_entry-IsJournal, IsJournal-relabel, next-record_entry, find-record_entry_self,
}

-- A full table of transactions refuses: transaction_begin returns 0 and changes nothing.
pub transaction_begin_full :
    (actor target : Text) (parent : ℕ) (k : Kernel)
    → transaction_capacity ≤ length k.journal.transactions
    → transaction_begin actor target parent k ≡ (0, k)
unfolding transaction_begin
transaction_begin_full actor target parent k full = rw (le→leb _ _ full)

module _ (actor target : Text) (parent : ℕ) (k : Kernel) where
  abbrev id : ℕ
  id = k.journal.next_sequence

  -- The registry once the object of the transaction is there.
  abbrev pub named : Registry
  named =
      (object_register (text "transaction") (transaction_name id)
        (object_id (text "events") k.registry) (text "open") parent k.registry).1

  abbrev pub opened : TransactionRecord
  opened = new_transaction id actor target parent (object_revision target named)

  abbrev inside : Kernel
  inside = record k {
    registry = named;
    journal = record k.journal {
      transactions = k.journal.transactions ++ opened ∷ [];
      current_transaction = id;
    };
  }

  abbrev pub begin_event : Event
  begin_event =
      make_event actor (transaction_name id) (text "begin") event_ok parent
        (text "allow:transaction") (text "transaction") inside

  begin_room :
      length k.journal.transactions < transaction_capacity
      → transaction_begin actor target parent k ≡ (
        id,
        record inside {
          journal = record (record_entry begin_event inside.journal) {
            current_transaction = k.journal.current_transaction;
          };
          serial =
              (event_record_kind actor
                (transaction_name id)
                (text "begin")
                event_ok
                parent
                (text "allow:transaction")
                (text "transaction")
                inside).1.serial;
        },
      )
  unfolding transaction_begin event_record_kind make_event
  begin_room room = rw (lt→leb-false _ _ room)

  module _ (v : IsLedger k.journal) (room : length k.journal.transactions < transaction_capacity)
      (no_wrap : id + 1 < 2 ^ 64) where
    abbrev begun : Journal
    begun = record (record_entry begin_event inside.journal) {
      current_transaction = k.journal.current_transaction;
    }

    inside-IsJournal : IsJournal inside.journal
    inside-IsJournal =
        IsJournal-relabel id k.journal.current_sequence (k.journal.transactions ++ opened ∷ [])
          v.journal

    entry-IsJournal : IsJournal (record_entry begin_event inside.journal)
    unfolding make_event
    entry-IsJournal = record_entry-IsJournal begin_event inside-IsJournal refl no_wrap

    next-begun : begun.next_sequence ≡ id + 1
    unfolding make_event
    next-begun = next-record_entry begin_event inside-IsJournal refl no_wrap

    begun-transactions : begun.transactions ≡ k.journal.transactions ++ opened ∷ []
    unfolding record_entry make_event
    begun-transactions =
        update_transaction-fresh id (set_end_event id) k.journal.transactions opened v.ids refl

    begun-IsLedger : IsLedger begun
    begun-IsLedger = record {
      journal =
          IsJournal-relabel k.journal.current_transaction
            (record_entry begin_event inside.journal).current_sequence
            (record_entry begin_event inside.journal).transactions entry-IsJournal;
      ids =
          rw (begun-transactions, next-begun)
            (Below-snoc (id + 1) k.journal.transactions opened
              (Below-mono id (id + 1) k.journal.transactions (omega arith) v.ids)
              (omega (arith, v.journal.fresh)) (omega arith));
      slots =
          rw begun-transactions (omega (arith, length-append k.journal.transactions (opened ∷ [])));
    }

    event_find-begun :
        (s : ℕ) → event_find s begun ≡ event_find s (record_entry begin_event inside.journal)
    event_find-begun s =
        event_find-retained s begun-IsLedger.journal.ring
        ∙ sym (event_find-retained s entry-IsJournal.ring)

    -- On a valid ledger with room for a transaction and sequences left, transaction_begin returns
    -- the sequence of its own begin event. The begin event can be found and belongs to the
    -- transaction, the record stands in the table under that id, with the status "open", the
    -- transaction that was current before is current again, and the ledger is valid.
    pub transaction_begin_lem :
        let (tx, k') = transaction_begin actor target parent k in
        (tx ≡ k.journal.next_sequence)
        × (event_find tx k'.journal ≡ some begin_event)
        × (begin_event.transaction_id ≡ tx)
        × (transaction_find tx k'.journal.transactions ≡ some opened)
        × (opened.id ≡ tx)
        × (opened.status ≡ text "open")
        × (k'.journal.current_transaction ≡ k.journal.current_transaction)
        × IsLedger k'.journal
    unfolding make_event text copy_field
    transaction_begin_lem = rw (begin_room room) (
      refl,
      event_find-begun id ∙ find-record_entry_self begin_event inside-IsJournal refl no_wrap,
      refl,
      rw begun-transactions (transaction_find-fresh id k.journal.transactions opened v.ids refl),
      refl,
      refl,
      refl,
      begun-IsLedger,
    )
