-- ===== src/Text/Append.antt =====
-- append_text and append_decimal write the prefix of a concatenation that fits the buffer.
use mathlib.Core.List.{reverse, reverse-cons}
use native.Mathlib.Nat.{pow-suc}
use glass_os.Prelude.{
  ℕ, zero, suc, ◌-◌, ◌≤◌, ◌≡◌, refl, ap, ◌∙◌, inl, inr, [], ◌∷◌, ◌++◌, append_assoc, append-nil,
  arith, length, length-append, length-reverse, take, ◌/◌, ◌^◌, ◌<◌, length-take, ltb, ◌==◌,
  Bool-cases, if◌then◌else◌,
}
use glass_os.Text.{Text, append_text, append_digits, append_decimal32, append_decimal64, digits_of}

pub take_all : (n : ℕ) (xs : Text) → length xs ≤ n → take n xs ≡ xs
take_all zero [] h = refl
take_all (suc n) [] h = refl
take_all zero (x ∷ xs) h = absurd (omega arith)
take_all (suc n) (x ∷ xs) h = ap (◌∷◌ x) (take_all n xs (omega arith))

pub take-append_of_le : (n : ℕ) (xs ys : Text) → n ≤ length xs → take n (xs ++ ys) ≡ take n xs
take-append_of_le zero xs ys h = refl
take-append_of_le (suc n) [] ys h = absurd (omega arith)
take-append_of_le (suc n) (x ∷ xs) ys h = ap (◌∷◌ x) (take-append_of_le n xs ys (omega arith))

pub take-take-append : (n : ℕ) (xs ys : Text) → take n (take n xs ++ ys) ≡ take n (xs ++ ys)
take-take-append zero xs ys = refl
take-take-append (suc n) [] ys = refl
take-take-append (suc n) (x ∷ xs) ys = ap (◌∷◌ x) (take-take-append n xs ys)

-- What append_text leaves: as much of the concatenation as the buffer holds beside its NUL.
pub append_text_lem :
    (capacity : ℕ) (dest s : Text)
    → length dest ≤ capacity - 1
    → append_text capacity dest s ≡ take (capacity - 1) (dest ++ s)
unfolding append_text
append_text_lem capacity dest [] h = rw (append-nil dest, take_all (capacity - 1) dest h)
append_text_lem capacity dest (c ∷ cs) h = elim (Bool-cases (ltb (length dest) (capacity - 1))) [
  | inl room ↦ rw room (
      append_text_lem capacity (dest ++ c ∷ []) cs (ground (arith, length-append dest (c ∷ [])))
      ∙ ap (take (capacity - 1)) (append_assoc dest (c ∷ []) cs))
  | inr full ↦
      rw full (
        ground
          (arith, take_all (capacity - 1) dest, take-append_of_le (capacity - 1) dest (c ∷ cs)))
]

append_digits_lem :
    (capacity : ℕ) (dest ds : Text)
    → length dest ≤ capacity - 1
    → append_digits capacity dest ds ≡ take (capacity - 1) (dest ++ reverse ds)
unfolding append_digits
append_digits_lem capacity dest [] h = rw (append-nil dest, take_all (capacity - 1) dest h)
append_digits_lem capacity dest (d ∷ ds) h =
    rw (append_digits_lem capacity dest ds h, reverse-cons d ds)
      (append_text_lem capacity _ (d ∷ [])
          (omega (arith, length-take (capacity - 1) (dest ++ reverse ds)))
        ∙ take-take-append (capacity - 1) (dest ++ reverse ds) (d ∷ [])
        ∙ ap (take (capacity - 1)) (append_assoc dest (reverse ds) (d ∷ [])))

-- The decimal print of a number, with room for so many digits.
unfoldable pub decimal : ℕ → ℕ → Text
decimal room value = if value == 0 then b'0' ∷ [] else reverse (digits_of room value)

pub append_decimal64_lem :
    (capacity : ℕ) (dest : Text) (value : ℕ)
    → length dest ≤ capacity - 1
    → append_decimal64 capacity dest value ≡ take (capacity - 1) (dest ++ decimal 20 value)
unfolding append_decimal64 decimal
append_decimal64_lem capacity dest value h = ground (
  arith,
  append_text_lem capacity dest (b'0' ∷ []),
  append_digits_lem capacity dest (digits_of 20 value),
)

pub append_decimal32_lem :
    (capacity : ℕ) (dest : Text) (value : ℕ)
    → length dest ≤ capacity - 1
    → append_decimal32 capacity dest value ≡ take (capacity - 1) (dest ++ decimal 10 value)
unfolding append_decimal32 decimal
append_decimal32_lem capacity dest value h = ground (
  arith,
  append_text_lem capacity dest (b'0' ∷ []),
  append_digits_lem capacity dest (digits_of 10 value),
)

-- A chain of appends is cut once, at its end.
pub append_text-take :
    (capacity : ℕ) (dest s : Text)
    → append_text capacity (take (capacity - 1) dest) s ≡ take (capacity - 1) (dest ++ s)
append_text-take capacity dest s =
    append_text_lem capacity (take (capacity - 1) dest) s
      (omega (arith, length-take (capacity - 1) dest))
    ∙ take-take-append (capacity - 1) dest s

pub append_decimal32-take :
    (capacity : ℕ) (dest : Text) (value : ℕ)
    → append_decimal32 capacity (take (capacity - 1) dest) value
      ≡ take (capacity - 1) (dest ++ decimal 10 value)
append_decimal32-take capacity dest value =
    append_decimal32_lem capacity (take (capacity - 1) dest) value
      (omega (arith, length-take (capacity - 1) dest))
    ∙ take-take-append (capacity - 1) dest (decimal 10 value)

pub append_decimal64-take :
    (capacity : ℕ) (dest : Text) (value : ℕ)
    → append_decimal64 capacity (take (capacity - 1) dest) value
      ≡ take (capacity - 1) (dest ++ decimal 20 value)
append_decimal64-take capacity dest value =
    append_decimal64_lem capacity (take (capacity - 1) dest) value
      (omega (arith, length-take (capacity - 1) dest))
    ∙ take-take-append (capacity - 1) dest (decimal 20 value)

pub append_text-nil : (capacity : ℕ) (s : Text) → append_text capacity [] s ≡ take (capacity - 1) s
append_text-nil capacity s = append_text_lem capacity [] s (omega arith)

length-digits_of :
    (room value : ℕ) (bound : ℕ) → value < 10 ^ bound → length (digits_of room value) ≤ bound
unfolding digits_of
length-digits_of zero value bound h = omega arith
length-digits_of (suc room) value zero h = ground arith
length-digits_of (suc room) value (suc bound) h =
    ground (arith, length-digits_of room (value / 10) bound (omega (arith, pow-suc 10 bound)))

-- A number below 10^n prints in n digits at most.
pub length-decimal :
    (room value bound : ℕ) → value < 10 ^ suc bound → length (decimal room value) ≤ suc bound
unfolding decimal
length-decimal room value bound h =
    ground (arith, length-digits_of room value (suc bound) h, length-reverse (digits_of room value))
