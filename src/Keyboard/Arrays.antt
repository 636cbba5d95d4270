-- ===== src/Keyboard/Arrays.antt =====
-- The loops of kernel/keyboard.c over its arrays of bytes.
use glass_os.Prelude.{
  ℕ, zero, suc, ◌+◌, ◌-◌, ◌≤◌, ◌<◌, ◌≡◌, ◌≢◌, refl, ap, ap₂, ◌∙◌, ◌&&◌, Bool-cases, inl, inr, List,
  [], ◌∷◌, ◌++◌, ltb, leb, ◌==◌, arith, if◌then◌else◌,
}
use glass_os.Screen.{poke}
use glass_os.Keyboard.{shift_right, shift_left, copy_line_from, line_length_from}

pub shift_right_lem :
    (rounds i : ℕ) (f : ℕ → ℕ) (j : ℕ)
    → rounds ≤ i
    → shift_right rounds i f j ≡ (if ltb (i - rounds) j && leb j i then f (j - 1) else f j)
unfolding shift_right
shift_right_lem zero i f j h = ground arith
shift_right_lem (suc rounds) i f j h =
    shift_right_lem rounds (i - 1) (poke i (f (i - 1)) f) j (omega arith) ∙ ground arith

pub shift_left_lem :
    (rounds i : ℕ) (f : ℕ → ℕ) (j : ℕ)
    → shift_left rounds i f j ≡ (if leb i j && ltb j (i + rounds) then f (j + 1) else f j)
unfolding shift_left
shift_left_lem zero i f j = ground arith
shift_left_lem (suc rounds) i f j =
    shift_left_lem rounds (i + 1) (poke i (f (i + 1)) f) j ∙ ground arith

-- A NUL stands somewhere from `low` up to `high`.
abbrev pub EndsWithin : ℕ → ℕ → (ℕ → ℕ) → Type 0
EndsWithin low high f = (n : ℕ) × (low ≤ n) × (n ≤ high) × (f n ≡ 0)

pub copy_line_from_end :
    (room i : ℕ) (destination source : ℕ → ℕ)
    → EndsWithin i (i + room) (copy_line_from room i destination source)
unfolding copy_line_from
copy_line_from_end zero i d s = (i, omega arith, omega arith, ground arith)
copy_line_from_end (suc room) i d s = elim (Bool-cases (s i == 0)) [
  | inl h ↦ rw h (i, omega arith, omega arith, ground arith)
  | inr h ↦
      let (n, low, high, nul) = copy_line_from_end room (i + 1) (poke i (s i) d) s in
      rw h (n, omega arith, omega arith, nul)
]

pub line_length_from_lem :
    (room i : ℕ) (f : ℕ → ℕ)
    → EndsWithin i (i + room) f
    → (line_length_from room i f ≤ i + room) × (f (line_length_from room i f) ≡ 0)
unfolding line_length_from
line_length_from_lem zero i f (n, low, high, nul) =
    let here : n ≡ i = omega arith in (omega arith, rw here at nul)
line_length_from_lem (suc room) i f (n, low, high, nul) = elim (Bool-cases (f i == 0)) [
  | inl h ↦ rw h (omega arith, ground arith)
  | inr h ↦
      let apart : n ≢ i = λ e. (let nul' : f i ≡ 0 = rw e at nul in ground (arith, nul', h)) in
      let rest = line_length_from_lem room (i + 1) f (n, omega (arith, apart), omega arith, nul) in
      rw h (omega (arith, rest.0), rest.1)
]

-- `length` bytes from index `i` on.
unfoldable pub slice : (ℕ → ℕ) → ℕ → ℕ → List ℕ
slice f i zero = []
slice f i (suc length) = f i ∷ slice f (i + 1) length

pub slice-append : (f : ℕ → ℕ) (i a b : ℕ) → slice f i (a + b) ≡ slice f i a ++ slice f (i + a) b
unfolding slice
slice-append f i zero b =
    let e : zero + b ≡ b = omega arith in let e' : i + zero ≡ i = omega arith in rw (e, e') refl
slice-append f i (suc a) b =
    let e : suc a + b ≡ suc (a + b) = omega arith in
    let e' : i + suc a ≡ i + 1 + a = omega arith in
    rw (e, e') (ap (λ r. f i ∷ r) (slice-append f (i + 1) a b))

pub slice-cong :
    (f g : ℕ → ℕ) (i i' length : ℕ)
    → ((j : ℕ) → j < length → f (i + j) ≡ g (i' + j))
    → slice f i length ≡ slice g i' length
unfolding slice
slice-cong f g i i' zero same = refl
slice-cong f g i i' (suc length) same =
    let e : i + 0 ≡ i = omega arith in
    let e' : i' + 0 ≡ i' = omega arith in
    let head : f i ≡ g i' = rw (e, e') at (same 0 (omega arith)) in
    ap₂ (λ x r. x ∷ r) head
      (slice-cong f g (i + 1) (i' + 1) length (λ j low.
        let s : i + 1 + j ≡ i + suc j = omega arith in
        let s' : i' + 1 + j ≡ i' + suc j = omega arith in rw (s, s') (same (suc j) (omega arith))))
