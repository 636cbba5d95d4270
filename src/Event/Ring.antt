-- ===== src/Event/Ring.antt =====
-- The ring of entries against the list of the newest 128 records (`push_entry`, `event_at` and
-- `event_find` of kernel/event.c).
use native.Mathlib.Numerals.{add-one}
use native.Mathlib.Nat.{add-zero}
use glass_os.Prelude.{
  ℕ, zero, suc, ◌+◌, ◌-◌, ◌%◌, ◌≤◌, ◌<◌, ◌≡◌, refl, ap, ap₂, sym, ◌∙◌, inl, inr, Option, none, some,
  List, [], ◌∷◌, ◌++◌, length, length-append, length-set, get_elem?, get_or, get_or-set_self,
  get_or-set_ne, get_elem?-eq-get_or, set, drop, arith, ◌==◌, Bool-cases, lt→ltb, get_elem?_beyond,
  dec_lt, if◌then◌else◌,
}
use glass_os.Kernel.{Event, Journal}
use glass_os.Event.{event_capacity, blank_event, push_entry, event_at, find_event_from, event_find}

pub record IsRing (j : Journal) : Type 0 where
  pub whole : length j.entries ≡ event_capacity
  pub first_in : j.first < event_capacity
  pub count_in : j.count ≤ event_capacity

module _ (es : List Event) where
  -- the `n` entries from index `h` on, round the ring
  abbrev pub window : ℕ → ℕ → List Event
  window h zero = []
  window h (suc n) = get_or es (h % event_capacity) blank_event ∷ window (h + 1) n

  length-window : (h n : ℕ) → length (window h n) ≡ n
  length-window h zero = refl
  length-window h (suc n) = ap suc (length-window (h + 1) n)

  window_snoc :
      (h n : ℕ)
      → window h (suc n) ≡ window h n ++ get_or es ((h + n) % event_capacity) blank_event ∷ []
  window_snoc h zero = rw add-zero
  window_snoc h (suc n) = ap (◌∷◌ (get_or es (h % event_capacity) blank_event)) (
      window_snoc (h + 1) n
      ∙ ap (λ k. window (h + 1) n ++ get_or es (k % event_capacity) blank_event ∷ []) (omega arith))

  window_round : (h h' n : ℕ) → h % event_capacity ≡ h' % event_capacity → window h n ≡ window h' n
  window_round h h' zero e = refl
  window_round h h' (suc n) e =
      ap₂ ◌∷◌ (ap (λ k. get_or es k blank_event) e) (window_round (h + 1) (h' + 1) n (omega arith))

  get-window :
      (h n i : ℕ)
      → i < n
      → get_elem? (window h n) i ≡ some (get_or es ((h + i) % event_capacity) blank_event)
  get-window h zero i lt = absurd (omega arith)
  get-window h (suc n) zero lt = rw add-zero
  get-window h (suc n) (suc i) lt =
      get-window (h + 1) n i (omega arith)
      ∙ ap (λ k. some (get_or es (k % event_capacity) blank_event)) (omega arith)

-- A write that lies `d` places behind a window of fewer than 128 entries does not touch it.
window-set :
    (es : List Event) (e : Event) (h n d p : ℕ)
    → n + d < event_capacity
    → p ≡ (h + n + d) % event_capacity
    → window (set es p e) h n ≡ window es h n
window-set es e h zero d p lt at = refl
window-set es e h (suc n) d p lt at =
    ap₂ ◌∷◌ (get_or-set_ne es e blank_event (omega arith))
      (window-set es e (h + 1) n d p (omega arith) (omega arith))

-- The newest 128 of a list that grows at its end.
abbrev pub newest : List Event → List Event
newest es = drop (length es - event_capacity) es

-- A full ring loses its oldest entry to the new one.
window_slide :
    (es : List Event) (e : Event) (h n : ℕ)
    → length es ≡ event_capacity
    → h < event_capacity
    → suc n ≡ event_capacity
    → window (set es h e) ((h + 1) % event_capacity) (suc n) ≡ window es (h + 1) n ++ e ∷ []
window_slide es e h n whole inside full =
    window_round (set es h e) ((h + 1) % event_capacity) (h + 1) (suc n) (omega arith)
    ∙ window_snoc (set es h e) (h + 1) n
    ∙ ap₂ (λ xs x. xs ++ x ∷ []) (window-set es e (h + 1) n 0 h (omega arith) (omega arith))
        (ap (λ k. get_or (set es h e) k blank_event) (omega arith)
          ∙ get_or-set_self es h e blank_event (omega arith))

window_grow :
    (es : List Event) (e : Event) (h n : ℕ)
    → length es ≡ event_capacity
    → n < event_capacity
    → window (set es ((h + n) % event_capacity) e) h (suc n) ≡ window es h n ++ e ∷ []
window_grow es e h n whole room =
    window_snoc (set es ((h + n) % event_capacity) e) h n
    ∙ ap₂ (λ xs x. xs ++ x ∷ [])
        (window-set es e h n 0 ((h + n) % event_capacity) (omega arith) (omega arith))
        (get_or-set_self es ((h + n) % event_capacity) e blank_event (omega arith))

-- The newest 128 of a window and one entry more.
newest_of_full :
    (es : List Event) (e : Event) (h c n : ℕ)
    → c ≡ suc n
    → suc n ≡ event_capacity
    → newest (window es h c ++ e ∷ []) ≡ window es (h + 1) n ++ e ∷ []
newest_of_full es e h c n eq full =
    let one : length (window es h c ++ e ∷ []) - event_capacity ≡ 1 =
      omega (arith, length-append (window es h c) (e ∷ []), length-window es h c) in
    rw (one, eq)

newest_of_room :
    (es : List Event) (e : Event) (h c : ℕ)
    → c < event_capacity
    → newest (window es h c ++ e ∷ []) ≡ window es h c ++ e ∷ []
newest_of_room es e h c room =
    let none_more : length (window es h c ++ e ∷ []) - event_capacity ≡ 0 =
      omega (arith, length-append (window es h c) (e ∷ []), length-window es h c) in
    rw none_more

-- What the journal retains, oldest first.
abbrev pub retained : Journal → List Event
retained j = window j.entries j.first j.count

pub length-retained : (j : Journal) → length (retained j) ≡ j.count
length-retained j = length-window j.entries j.first j.count

module _ (e : Event) {j : Journal} (v : IsRing j) where
  pub push_entry-IsRing : IsRing (push_entry e j)
  unfolding push_entry
  push_entry-IsRing = ground (
    arith,
    length-set j.entries j.first e,
    length-set j.entries ((j.first + j.count) % event_capacity) e,
  )

  -- What a journal retains after a record was pushed on its ring is the newest 128 of what it
  -- retained and that record, if first and count lie in the ring.
  pub retained-push_entry : retained (push_entry e j) ≡ newest (retained j ++ e ∷ [])
  unfolding push_entry
  retained-push_entry = elim (Bool-cases (j.count == event_capacity)) [
    | inl full ↦
        let count_suc : j.count ≡ suc (j.count - 1) = ground arith in
        rw full (
          ap (window (set j.entries j.first e) ((j.first + 1) % event_capacity)) count_suc
          ∙ window_slide j.entries e j.first (j.count - 1) v.whole v.first_in (ground arith)
          ∙ sym (newest_of_full j.entries e j.first j.count (j.count - 1) count_suc (ground arith)))
    | inr room ↦
        rw (room, add-one)
          (window_grow j.entries e j.first j.count v.whole (ground arith)
            ∙ sym (newest_of_room j.entries e j.first j.count (ground arith)))
  ]

module _ {j : Journal} (v : IsRing j) where
  -- An index below `count` names an entry of the ring.
  event_at-some :
      (i : ℕ)
      → i < j.count
      → event_at i j ≡ some (get_or j.entries ((j.first + i) % event_capacity) blank_event)
  unfolding event_at
  event_at-some i lt = rw (lt→ltb i j.count lt) (
      get_elem?-eq-get_or j.entries ((j.first + i) % event_capacity) blank_event
        (let full : length j.entries ≡ event_capacity = v.whole in omega arith))

  -- event_at reads the retained records by age, and nothing past them.
  pub event_at-retained : (i : ℕ) → event_at i j ≡ get_elem? (retained j) i
  event_at-retained i = elim (dec_lt i j.count) [
    | yes lt ↦ event_at-some i lt ∙ sym (get-window j.entries j.first j.count i lt)
    | no ge ↦
        event_at-none i ge
        ∙ sym (get_elem?_beyond (retained j) i (omega (arith, length-retained j)))
  ]
    where
      event_at-none : (i : ℕ) → ¬ (i < j.count) → event_at i j ≡ none
      event_at-none i ge = unfold event_at in ground arith

-- The first record of a list with a given sequence.
unfoldable pub first_with : ℕ → List Event → Option Event
first_with sequence [] = none
first_with sequence (e ∷ es) = if e.sequence == sequence then some e else first_with sequence es

find_event_from-window :
    (n i sequence : ℕ) {j : Journal}
    → IsRing j
    → i + n ≤ j.count
    → find_event_from n i sequence j ≡ first_with sequence (window j.entries (j.first + i) n)
unfolding find_event_from first_with
find_event_from-window zero i sequence v h = refl
find_event_from-window (suc n) i sequence {j} v h = rw (
  find_event_from,
  event_at-some v i (omega arith),
  find_event_from-window n (i + 1) sequence v (omega arith),
  shift,
)
  where
    shift : j.first + (i + 1) ≡ j.first + i + 1
    shift = omega arith

-- event_find returns the oldest retained record with the sequence that is asked for.
pub event_find-retained :
    (sequence : ℕ) {j : Journal}
    → IsRing j
    → event_find sequence j ≡ first_with sequence (retained j)
unfolding event_find
event_find-retained sequence {j} v =
    find_event_from-window j.count 0 sequence v (omega arith)
    ∙ ap (λ h. first_with sequence (window j.entries h j.count)) (omega arith)
