-- ===== src/Report/Chain.antt =====
-- event_print_chain of kernel/event.c, which calls itself for the parent of an event.
use glass_os.Prelude.{
  ℕ, zero, suc, ◌+◌, ◌<◌, ◌≡◌, ap, sym, ◌∙◌, inl, inr, Bool-cases, Option-cases, none, some, ◌==◌,
  arith, get_elem?_beyond, ◌^◌, ltb, ltb→lt,
}
use glass_os.Text.{Text}
use glass_os.Kernel.{Kernel, Event, EventResult, Journal}
use glass_os.Event.{event_find, event_record_kind, event_capacity, make_event}
use glass_os.Event.Ring.{retained, length-retained}
use glass_os.Event.Sequence.{IsJournal, event_find-IsJournal}
use glass_os.Event.Record.{event_record_kind-IsJournal, find-event_record_kind_parts}
use glass_os.Report.Events.{print_chain, event_print_chain}

-- Each event that can be found has an older event, or none, for its parent.
abbrev pub IsCausal : Journal → Type 0
IsCausal j = (s : ℕ) (e : Event) → event_find s j ≡ some e → e.parent_event < s

print_chain_fuel :
    (n m s : ℕ) (k : Kernel)
    → IsCausal k.journal
    → s < n
    → s < m
    → print_chain n s k ≡ print_chain m s k
unfolding print_chain
print_chain_fuel zero m s k causal hn hm = absurd (omega arith)
print_chain_fuel (suc n) zero s k causal hn hm = absurd (omega arith)
print_chain_fuel (suc n) (suc m) s k causal hn hm = elim (Option-cases (event_find s k.journal)) [
  | inl e ↦ rw (print_chain, e)
  | inr (e, at) ↦
      let older = causal s e at in
      let same = print_chain_fuel n m e.parent_event k causal (omega arith) (omega arith) in
      rw (print_chain, at, same)
]

-- The depth that the model gives event_print_chain does not cut it short, and the calls of the code
-- end: in a journal in which each event that can be found has a smaller number for its parent, and
-- for a sequence below the next one, every depth above the sequence prints what event_print_chain
-- prints.
pub event_print_chain_depth :
    (n s : ℕ) (k : Kernel)
    → IsCausal k.journal
    → s < k.journal.next_sequence
    → s < n
    → print_chain n s k ≡ event_print_chain s k
unfolding event_print_chain
event_print_chain_depth n s k causal issued deep =
    print_chain_fuel n k.journal.next_sequence s k causal deep issued

some-none : {e : Event} → some e ≡ none → ⊥
some-none h = cc

some-injective : {e e' : Event} → some e ≡ some e' → e ≡ e'
some-injective h = cc

module _ (actor target operation : Text) (result : EventResult) (parent : ℕ) (policy kind : Text)
    (k : Kernel) where
  abbrev after : Kernel
  after = (event_record_kind actor target operation result parent policy kind k).1

  unissued :
      IsJournal k.journal
      → k.journal.next_sequence + 1 < 2 ^ 64
      → (s : ℕ) → k.journal.next_sequence < s
      → event_find s after.journal ≡ none
  unissued v room s beyond =
      let kept =
        event_record_kind-IsJournal actor target operation result parent policy kind k v room in
      (event_find-IsJournal s kept.0).0 (omega (arith, kept.2, kept.1))
      ∙ get_elem?_beyond (retained after.journal) _
          (omega (arith, length-retained after.journal, kept.2, kept.1, kept.0.fresh))

  -- event_record_kind keeps a valid journal causal, as long as the parent that it is given is an
  -- issued sequence, or none, and sequences are left.
  pub event_record_kind-IsCausal :
      IsJournal k.journal
      → k.journal.next_sequence + 1 < 2 ^ 64
      → parent < k.journal.next_sequence
      → IsCausal k.journal
      → IsCausal after.journal
  unfolding make_event
  event_record_kind-IsCausal v room older causal s e at =
      let parts =
        find-event_record_kind_parts actor target operation result parent policy kind k v room s in
      let seq =
        (event_record_kind-IsJournal actor target operation result parent policy kind k v room).1 in
      elim (Bool-cases (ltb k.journal.next_sequence s)) [
        | inl beyond ↦
            let gone = unissued v room s (ltb→lt _ _ beyond) in absurd (some-none (sym at ∙ gone))
        | inr issued ↦ elim (Bool-cases (s == k.journal.next_sequence)) [
          | inl self ↦
              let same : s ≡ k.journal.next_sequence = ground (arith, self) in
              let found = ap (λ n. event_find n after.journal) (same ∙ sym seq) ∙ parts.0 in
              let this = some-injective (sym at ∙ found) in rw (this, same) older
          | inr other ↦ elim (Bool-cases (ltb k.journal.next_sequence (s + event_capacity))) [
            | inl recent ↦ causal s e (
                sym (parts.1 (ground (arith, seq, issued, other)) (ground (arith, seq, recent)))
                ∙ at)
            | inr old ↦ absurd (some-none (sym at ∙ parts.2 (ground (arith, seq, old))))
          ]
        ]
      ]
