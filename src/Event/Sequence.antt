-- ===== src/Event/Sequence.antt =====
-- Sequence ids of the journal (event_record_kind and event_find of kernel/event.c): consecutive,
-- never reused, and the newest 128 can be found.
use glass_os.Prelude.{
  Bool-cases, inl, inr, ◌==◌, ap, sym, ◌∙◌, ℕ, zero, suc, ◌+◌, ◌-◌, ◌^◌, ◌≤◌, ◌<◌, ◌≡◌, refl, none,
  some, List, [], ◌∷◌, ◌++◌, length, length-append, get_elem?, drop, arith, dec_lt,
}
use glass_os.Kernel.{Event, Journal, TransactionRecord}
use glass_os.Event.{event_capacity, push_entry, record_entry, event_find, event_init}
use glass_os.Event.Ring.{
  IsRing, retained, newest, length-retained, push_entry-IsRing, retained-push_entry, first_with,
  event_find-retained,
}

-- The sequences of a list are `n`, `n + 1`, ...
abbrev pub Consecutive : ℕ → List Event → Type 0
Consecutive n [] = Unit {0}
Consecutive n (e ∷ es) = (e.sequence ≡ n) × Consecutive (n + 1) es

Consecutive-snoc :
    (n : ℕ) (es : List Event) (e : Event)
    → Consecutive n es
    → e.sequence ≡ n + length es
    → Consecutive n (es ++ e ∷ [])
Consecutive-snoc n [] e h p = omega arith
Consecutive-snoc n (x ∷ es) e h p = (h.0, Consecutive-snoc (n + 1) es e h.1 (omega arith))

Consecutive-drop :
    (d n m : ℕ) (es : List Event) → m ≡ n + d → Consecutive n es → Consecutive m (drop d es)
Consecutive-drop zero n m es e h = let same : m ≡ n = omega arith in rw same h
Consecutive-drop (suc d) n m [] e h = tt
Consecutive-drop (suc d) n m (x ∷ es) e h = Consecutive-drop d (n + 1) m es (omega arith) h.1

first_with-Consecutive :
    (n s : ℕ) (es : List Event) → Consecutive n es → n ≤ s → first_with s es ≡ get_elem? es (s - n)
unfolding first_with
first_with-Consecutive n s [] h le = refl
first_with-Consecutive n s (e ∷ es) h le = elim (Bool-cases (n == s)) [
  | inl hit ↦ (let at : s - n ≡ 0 = ground arith in rw (at, h.0, hit))
  | inr miss ↦
      let at : s - n ≡ suc (s - (n + 1)) = ground arith in
      rw (at, h.0, miss) (first_with-Consecutive (n + 1) s es h.1 (ground arith))
]

first_with_below : (n s : ℕ) (es : List Event) → Consecutive n es → s < n → first_with s es ≡ none
unfolding first_with
first_with_below n s [] h lt = refl
first_with_below n s (e ∷ es) h lt = ground (arith, first_with_below (n + 1) s es h.1)

get-drop : (d i : ℕ) (es : List Event) → get_elem? (drop d es) i ≡ get_elem? es (d + i)
get-drop zero i es = ap (get_elem? es) (omega arith)
get-drop (suc d) i [] = refl
get-drop (suc d) i (e ∷ es) =
    get-drop d i es ∙ ap (get_elem? (e ∷ es)) (let s : suc (d + i) ≡ suc d + i = omega arith in s)

get-append_left :
    (xs ys : List Event) (i : ℕ) → i < length xs → get_elem? (xs ++ ys) i ≡ get_elem? xs i
get-append_left [] ys i h = absurd (omega arith)
get-append_left (x ∷ xs) ys zero h = refl
get-append_left (x ∷ xs) ys (suc i) h = get-append_left xs ys i (omega arith)

get-append_last :
    (xs : List Event) (y : Event) (i : ℕ) → i ≡ length xs → get_elem? (xs ++ y ∷ []) i ≡ some y
get-append_last [] y i e = rw e
get-append_last (x ∷ xs) y zero e = absurd (omega arith)
get-append_last (x ∷ xs) y (suc i) e = get-append_last xs y i (omega arith)

-- The journal invariant.
pub record IsJournal (j : Journal) : Type 0 where
  pub ring : IsRing j
  pub fresh : j.count < j.next_sequence
  pub numbered : Consecutive (j.next_sequence - j.count) (retained j)

-- The invariant is about the ring and the counter alone.
pub IsJournal-relabel :
    (tx current : ℕ) (ts : List TransactionRecord) {j : Journal}
    → IsJournal j
    → IsJournal
        (record j { current_transaction = tx; current_sequence = current; transactions = ts })
IsJournal-relabel tx current ts v = record {
  ring = record { whole = v.ring.whole; first_in = v.ring.first_in; count_in = v.ring.count_in };
  fresh = v.fresh;
  numbered = v.numbered;
}

-- In a valid journal event_find reads by age, and finds nothing older than what is retained.
pub event_find-IsJournal :
    (s : ℕ) {j : Journal}
    → IsJournal j
    → (j.next_sequence - j.count ≤ s
        → event_find s j ≡ get_elem? (retained j) (s - (j.next_sequence - j.count)))
      × (s < j.next_sequence - j.count → event_find s j ≡ none)
event_find-IsJournal s {j} v = (
  λ le.
      event_find-retained s v.ring
      ∙ first_with-Consecutive (j.next_sequence - j.count) s (retained j) v.numbered le,
  λ lt.
      event_find-retained s v.ring
      ∙ first_with_below (j.next_sequence - j.count) s (retained j) v.numbered lt,
)

count-push_entry :
    (e : Event) (j : Journal)
    → IsRing j
    → (push_entry e j).count ≡ j.count + 1 - (j.count + 1 - event_capacity)
unfolding push_entry
count-push_entry e j v = ground arith

next-push_entry : (e : Event) (j : Journal) → (push_entry e j).next_sequence ≡ j.next_sequence
unfolding push_entry
next-push_entry e j = ground arith

module _ (e : Event) {j : Journal} (v : IsJournal j) (numbered : e.sequence ≡ j.next_sequence)
    (no_wrap : j.next_sequence + 1 < 2 ^ 64) where
  abbrev pub j' : Journal
  j' = record_entry e j

  pub next-record_entry : j'.next_sequence ≡ j.next_sequence + 1
  unfolding record_entry
  next-record_entry = omega arith

  count-record_entry : j'.count ≡ j.count + 1 - (j.count + 1 - event_capacity)
  unfolding record_entry
  count-record_entry = count-push_entry e j v.ring

  pub retained-record_entry : retained j' ≡ newest (retained j ++ e ∷ [])
  unfolding record_entry
  retained-record_entry = retained-push_entry e v.ring

  record_entry-IsRing : IsRing j'
  unfolding record_entry
  record_entry-IsRing =
      let w = push_entry-IsRing e v.ring in
      record { whole = w.whole; first_in = w.first_in; count_in = w.count_in }

  pub record_entry-IsJournal : IsJournal j'
  record_entry-IsJournal = record {
    ring = record_entry-IsRing;
    fresh = omega (arith, v.ring, v.fresh, next-record_entry, count-record_entry);
    numbered = rw retained-record_entry (
        Consecutive-drop (length (retained j ++ e ∷ []) - event_capacity)
          (j.next_sequence - j.count) (j'.next_sequence - j'.count) (retained j ++ e ∷ [])
          (omega (
            arith,
            v.fresh,
            next-record_entry,
            count-record_entry,
            length-append (retained j) (e ∷ []),
            length-retained j,
          ))
          (Consecutive-snoc (j.next_sequence - j.count) (retained j) e v.numbered
            (omega (arith, v.fresh, numbered, length-retained j))));
  }

  abbrev oldest : ℕ
  oldest = j.next_sequence - j.count

  abbrev oldest' : ℕ
  oldest' = j'.next_sequence - j'.count

  oldest-record_entry : oldest' ≡ oldest + (j.count + 1 - event_capacity)
  oldest-record_entry = omega (arith, v.fresh, next-record_entry, count-record_entry)

  find-retained :
      (s : ℕ) → oldest' ≤ s → event_find s j' ≡ get_elem? (retained j ++ e ∷ []) (s - oldest)
  find-retained s le =
      (event_find-IsJournal s record_entry-IsJournal).0 le
      ∙ ap (λ es. get_elem? es (s - oldest')) retained-record_entry
      ∙ get-drop (length (retained j ++ e ∷ []) - event_capacity) (s - oldest')
          (retained j ++ e ∷ [])
      ∙ ap (get_elem? (retained j ++ e ∷ [])) (
          omega (
            arith,
            v.fresh,
            oldest-record_entry,
            length-append (retained j) (e ∷ []),
            length-retained j,
          ))

  -- The new record is found under its sequence.
  pub find-record_entry_self : event_find j.next_sequence j' ≡ some e
  find-record_entry_self =
      find-retained j.next_sequence (omega (arith, v.fresh, oldest-record_entry))
      ∙ get-append_last (retained j) e (j.next_sequence - oldest)
          (omega (arith, v.fresh, length-retained j))

  -- The 127 sequences before it are found as before.
  pub find-record_entry_recent :
      (s : ℕ)
      → s < j.next_sequence
      → j.next_sequence < s + event_capacity
      → event_find s j' ≡ event_find s j
  find-record_entry_recent s before recent = elim (dec_lt s oldest') [
    | yes lt ↦
        (event_find-IsJournal s record_entry-IsJournal).1 lt
        ∙ sym ((event_find-IsJournal s v).1 (omega (arith, v.ring, v.fresh, oldest-record_entry)))
    | no ge ↦
        let le : oldest' ≤ s = omega arith in
        find-retained s le
        ∙ get-append_left (retained j) (e ∷ []) (s - oldest)
            (omega (arith, v.fresh, oldest-record_entry, length-retained j))
        ∙ sym
            ((event_find-IsJournal s v).0 (omega (arith, le, v.ring, v.fresh, oldest-record_entry)))
  ]

  -- What is 128 or more records old is gone.
  pub find-record_entry_old :
      (s : ℕ) → s + event_capacity ≤ j.next_sequence → event_find s j' ≡ none
  find-record_entry_old s old =
      (event_find-IsJournal s record_entry-IsJournal).1
        (omega (arith, v.ring, v.fresh, oldest-record_entry))

-- event_init leaves a valid, empty journal.
pub event_init-IsJournal : IsJournal event_init
unfolding event_init
event_init-IsJournal = record { ring = omega arith; fresh = omega arith; numbered = tt }
