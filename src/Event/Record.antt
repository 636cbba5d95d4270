-- ===== src/Event/Record.antt =====
-- What event_record_kind of kernel/event.c leaves in the journal, and what event_find then finds.
use glass_os.Prelude.{
  Bool-cases, inl, inr, ◌==◌, ltb, if◌then◌else◌, ap, sym, ◌∙◌, ℕ, ◌+◌, ◌^◌, ◌≤◌, ◌<◌, ◌≡◌, refl,
  none, some, [], ◌∷◌, ◌++◌, arith,
}
use glass_os.Text.{Text}
use glass_os.Kernel.{Kernel, Event, EventResult}
use glass_os.Event.{event_capacity, make_event, event_record_kind, event_find}
use glass_os.Event.Ring.{retained, newest}
use glass_os.Event.Sequence.{
  IsJournal, record_entry-IsJournal, next-record_entry, retained-record_entry,
  find-record_entry_self, find-record_entry_recent, find-record_entry_old,
}

module _ (actor target operation : Text) (result : EventResult) (parent : ℕ) (policy kind : Text)
    (k : Kernel) where
  abbrev pub recorded : Event
  recorded = make_event actor target operation result parent policy kind k

  -- event_record_kind returns the next sequence and leaves a valid journal: what it retains is the
  -- newest 128 of what it retained and the new record, whose sequence is one above the last. The
  -- counter of sequences must not be at its end.
  pub event_record_kind-IsJournal :
      IsJournal k.journal
      → k.journal.next_sequence + 1 < 2 ^ 64
      → let (seq, k') = event_record_kind actor target operation result parent policy kind k in
        IsJournal k'.journal
        × (seq ≡ k.journal.next_sequence)
        × (k'.journal.next_sequence ≡ seq + 1)
        × (retained k'.journal ≡ newest (retained k.journal ++ recorded ∷ []))
  unfolding event_record_kind make_event
  event_record_kind-IsJournal v room = (
    record_entry-IsJournal recorded v refl room,
    refl,
    next-record_entry recorded v refl room,
    retained-record_entry recorded v refl room,
  )

  -- The three parts of what event_find then finds.
  pub find-event_record_kind_parts :
      IsJournal k.journal
      → k.journal.next_sequence + 1 < 2 ^ 64
      → (s : ℕ)
      → let (seq, k') = event_record_kind actor target operation result parent policy kind k in
        (event_find seq k'.journal ≡ some recorded)
        × (s < seq → seq < s + event_capacity → event_find s k'.journal ≡ event_find s k.journal)
        × (s + event_capacity ≤ seq → event_find s k'.journal ≡ none)
  unfolding event_record_kind make_event
  find-event_record_kind_parts v room s = (
    find-record_entry_self recorded v refl room,
    find-record_entry_recent recorded v refl room s,
    find-record_entry_old recorded v refl room s,
  )

  -- On a valid journal whose counter of sequences is not at its end, event_record_kind returns the
  -- next sequence. After it, event_find finds the new record under that sequence, finds every
  -- earlier sequence of the last 127 as before, and nothing that is 128 or more older.
  pub find-event_record_kind :
      (s : ℕ)
      → IsJournal k.journal
      → k.journal.next_sequence + 1 < 2 ^ 64
      → s ≤ k.journal.next_sequence
      → let (seq, k') = event_record_kind actor target operation result parent policy kind k in
        (seq ≡ k.journal.next_sequence)
        × (event_find s k'.journal ≡ (
            if s == seq
            then some recorded
            else if ltb seq (s + event_capacity)
            then event_find s k.journal
            else none))
  find-event_record_kind s v room le =
      let parts = find-event_record_kind_parts v room s in
      let returned : (event_record_kind actor target operation result parent policy kind k).0
          ≡ k.journal.next_sequence =
        (event_record_kind-IsJournal v room).1 in
      (
        returned,
        elim (Bool-cases (s == k.journal.next_sequence)) [
          | inl h ↦
              let same : s ≡ k.journal.next_sequence = ground (arith, h) in
              let self : event_find s
                    (event_record_kind actor target operation result parent policy kind k).1.journal
                  ≡ some recorded =
                ap
                  (λ n.
                    event_find n
                      (event_record_kind actor target operation result parent policy kind
                        k).1.journal)
                  (same ∙ sym returned)
                ∙ parts.0 in
              rw (returned, h) self
          | inr h ↦ elim (Bool-cases (ltb k.journal.next_sequence (s + event_capacity))) [
            | inl h' ↦
                rw (returned, h, h')
                  (parts.1 (ground (arith, returned, h, le)) (ground (arith, returned, h')))
            | inr h' ↦ rw (returned, h, h') (parts.2 (ground (arith, returned, h')))
          ]
        ],
      )
