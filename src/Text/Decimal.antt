-- ===== src/Text/Decimal.antt =====
-- Decimal prints are read back by the scanning loops.
use mathlib.Core.List.{reverse, reverse-cons}
use native.Mathlib.Nat.{pow-suc, mod-eq_of_lt, add-zero, zero-mod}
use glass_os.Prelude.{
  ℕ, zero, suc, ◌+◌, ◌*◌, ◌/◌, ◌%◌, ◌^◌, ◌<◌, ◌≡◌, true, false, ap, ◌-◌, ◌∙◌, inl, inr, [], ◌∷◌,
  ◌++◌, append_assoc, append-nil, arith, length, length-append, length-reverse, ◌≤◌, ◌==◌,
  Bool-cases,
}
use glass_os.Text.{
  Text, digits_of, append_decimal64, scan_digits, is_digit, whole_number, parse_id, parse_decimal64,
}
use glass_os.Text.Append.{decimal, append_decimal64_lem, take_all, length-decimal}

-- One digit behind the value `v / 10` makes the value `v`.
scan_last :
    (m v n : ℕ) (t : Text)
    → v < m
    → scan_digits m (v / 10) n ((b'0' + v % 10) ∷ t) ≡ scan_digits m v (n + 1) t
unfolding scan_digits
scan_last m v n t h =
    let digit : is_digit (48 + v % 10) ≡ true = ground arith in
    let whole : v / 10 * 10 + (48 + v % 10 - 48) ≡ v = omega arith in
    rw (digit, whole, mod-eq_of_lt h)

scan-digits_of :
    (room m v n : ℕ) (t : Text)
    → v < 10 ^ room
    → v < m
    → scan_digits m 0 n (reverse (digits_of room v) ++ t)
      ≡ scan_digits m v (n + length (digits_of room v)) t
unfolding digits_of
scan-digits_of zero m v n t h k = let none_left : v ≡ 0 = omega arith in rw (none_left, add-zero)
scan-digits_of (suc room) m v n t h k = elim (Bool-cases (v == 0)) [
  | inl e ↦ (let none_left : v ≡ 0 = ground arith in rw (e, none_left, add-zero))
  | inr e ↦
      rw (e, reverse-cons, append_assoc)
        (scan-digits_of room m (v / 10) n ((b'0' + v % 10) ∷ t) (omega (arith, pow-suc 10 room))
            (omega arith)
          ∙ scan_last m v (n + length (digits_of room (v / 10))) t k
          ∙ ap (λ j. scan_digits m v j t) (omega arith))
]

digits_of-ne_nil : (room v : ℕ) → 0 < v → 0 < length (digits_of (suc room) v)
unfolding digits_of
digits_of-ne_nil room v h = ground arith

whole_number-decimal :
    (m room v : ℕ)
    → v < 10 ^ suc room
    → v < m
    → whole_number (scan_digits m 0 0 (decimal (suc room) v)) ≡ v
unfolding decimal scan_digits
whole_number-decimal m room v h k = elim (Bool-cases (v == 0)) [
  | inl e ↦ let none_left : v ≡ 0 = ground arith in rw none_left (zero-mod m)
  | inr e ↦
      rw
        (
          e,
          ← append-nil (reverse (digits_of (suc room) v)),
          scan-digits_of (suc room) m v 0 [] h k,
          scan_digits,
        )
        (ground (arith, digits_of-ne_nil room v (ground arith)))
]

parse_decimal64-decimal : (v : ℕ) → v < 2 ^ 64 → parse_decimal64 (decimal 20 v) ≡ v
unfolding parse_decimal64
parse_decimal64-decimal v h = whole_number-decimal (2 ^ 64) 19 v (omega arith) h

-- Every byte is one of the ten digits.
abbrev pub AllDigits : Text → Type 0
AllDigits [] = Unit {0}
AllDigits (c ∷ cs) = (b'0' ≤ c) × (c ≤ b'9') × AllDigits cs

AllDigits-append : (s t : Text) → AllDigits s → AllDigits t → AllDigits (s ++ t)
AllDigits-append [] t h k = k
AllDigits-append (c ∷ s) t (low, high, h) k = (low, high, AllDigits-append s t h k)

reverse-AllDigits : (s : Text) → AllDigits s → AllDigits (reverse s)
reverse-AllDigits [] h = tt
reverse-AllDigits (c ∷ s) (low, high, h) =
    rw reverse-cons (AllDigits-append (reverse s) (c ∷ []) (reverse-AllDigits s h) (low, high, tt))

digits_of-AllDigits : (room v : ℕ) → AllDigits (digits_of room v)
unfolding digits_of
digits_of-AllDigits zero v = tt
digits_of-AllDigits (suc room) v = elim (Bool-cases (v == 0)) [
  | inl e ↦ rw e tt
  | inr e ↦ rw e (omega arith, omega arith, digits_of-AllDigits room (v / 10))
]

decimal-AllDigits : (room v : ℕ) → AllDigits (decimal room v)
unfolding decimal
decimal-AllDigits room v = elim (Bool-cases (v == 0)) [
  | inl e ↦ rw e (omega arith, omega arith, tt)
  | inr e ↦ rw e (reverse-AllDigits (digits_of room v) (digits_of-AllDigits room v))
]

decimal-ne_nil : (room v : ℕ) → 0 < length (decimal (suc room) v)
unfolding decimal
decimal-ne_nil room v = elim (Bool-cases (v == 0)) [
  | inl e ↦ rw e (omega arith)
  | inr e ↦
      rw (e, length-reverse (digits_of (suc room) v)) (digits_of-ne_nil room v (ground (arith, e)))
]

-- append_decimal of event.c, for every uint64_t and a buffer with room for 20 bytes more and the NUL:
-- it leaves what the buffer holds and appends one to twenty bytes, all of them decimal digits, which
-- parse_decimal64 reads back as the number.
pub parse_decimal64-append_decimal64 :
    (capacity : ℕ) (dest : Text) (v : ℕ)
    → length dest + 20 < capacity
    → v < 2 ^ 64
    → (s : Text) × (append_decimal64 capacity dest v ≡ dest ++ s)
      × AllDigits s
      × (0 < length s)
      × (length s ≤ 20)
      × (parse_decimal64 s ≡ v)
parse_decimal64-append_decimal64 capacity dest v room h =
    let s = decimal 20 v in
    let short = length-decimal 20 v 19 (omega (arith, h)) in
    (
      s,
      append_decimal64_lem capacity dest v (omega (arith, room))
          ∙ take_all (capacity - 1) (dest ++ s) (omega (arith, room, short, length-append dest s)),
      decimal-AllDigits 20 v,
      decimal-ne_nil 19 v,
      short,
      parse_decimal64-decimal v h,
    )

-- parse_id reads back every uint32_t that is printed in decimal.
pub parse_id-decimal : (v : ℕ) → v < 2 ^ 32 → parse_id (decimal 10 v) ≡ v
unfolding parse_id
parse_id-decimal v h = whole_number-decimal (2 ^ 32) 9 v (omega arith) h

-- parse_id returns 0 for a text that does not begin with a digit.
pub parse_id_nondigit : (c : ℕ) (cs : Text) → is_digit c ≡ false → parse_id (c ∷ cs) ≡ 0
unfolding parse_id scan_digits
parse_id_nondigit c cs h = rw h
