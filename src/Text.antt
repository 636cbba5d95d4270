-- ===== src/Text.antt =====
-- The C string helpers that object.c, event.c, policy.c, config.c, user.c and main.c each declare:
-- comparison, bounded copies, bounded appends, and decimal numbers.
pub mod Append
pub mod Equal
pub mod Decimal
use glass_os.Prelude.{
  ℕ, zero, suc, ◌+◌, ◌-◌, ◌*◌, ◌/◌, ◌%◌, ◌^◌, Bool, true, false, ◌&&◌, List, [], ◌∷◌, ◌++◌, length,
  take, text, ltb, leb, ◌==◌, if◌then◌else◌,
}

-- A C string: its bytes up to the NUL, which the list does not hold.
abbrev pub Text : Type 0
Text = List ℕ

-- text_equal: two pointers that walk on while the bytes agree.
unfoldable pub text_equal : Text → Text → Bool
text_equal [] [] = true
text_equal [] (b ∷ bs) = false
text_equal (a ∷ as') [] = false
text_equal (a ∷ as') (b ∷ bs) = a == b && text_equal as' bs

-- starts_with: every byte of the prefix is met.
unfoldable pub starts_with : Text → Text → Bool
starts_with s [] = true
starts_with [] (p ∷ ps) = false
starts_with (c ∷ cs) (p ∷ ps) = c == p && starts_with cs ps

-- copy_text, copy_field, copy_value: at most `capacity - 1` bytes, then the NUL.
unfoldable pub copy_field : ℕ → Text → Text
copy_field capacity source = take (capacity - 1) source

-- append_text: `*position` is the length of what the buffer holds.
unfoldable pub append_text : ℕ → Text → Text → Text
append_text capacity dest [] = dest
append_text capacity dest (c ∷ cs) =
    let rest = append_text capacity (dest ++ c ∷ []) cs in
    if ltb (length dest) (capacity - 1) then rest else dest

-- The first loop of append_decimal: up to `room` digits, the last one first.
unfoldable pub digits_of : ℕ → ℕ → Text
digits_of zero value = []
digits_of (suc room) value =
    let rest = digits_of room (value / 10) in if value == 0 then [] else (b'0' + value % 10) ∷ rest

-- The second loop: `single` holds one digit at a time, from the last of the array to its first.
unfoldable pub append_digits : ℕ → Text → Text → Text
append_digits capacity dest [] = dest
append_digits capacity dest (d ∷ ds) =
    append_text capacity (append_digits capacity dest ds) (d ∷ [])

-- append_decimal of event.c: 20 digits hold every uint64_t.
unfoldable pub append_decimal64 : ℕ → Text → ℕ → Text
unfolding append_text digits_of append_digits
append_decimal64 capacity dest value =
    if value == 0
    then append_text capacity dest (b'0' ∷ [])
    else append_digits capacity dest (digits_of 20 value)

-- append_decimal of policy.c: 10 digits hold every uint32_t.
unfoldable pub append_decimal32 : ℕ → Text → ℕ → Text
unfolding append_text digits_of append_digits
append_decimal32 capacity dest value =
    if value == 0
    then append_text capacity dest (b'0' ∷ [])
    else append_digits capacity dest (digits_of 10 value)

abbrev pub is_digit : ℕ → Bool
is_digit c = leb b'0' c && leb c b'9'

-- What the scanning loop leaves: the value, the number of digits, and the text behind them.
pub record Scan : Type 0 where
  pub value : ℕ
  pub digits : ℕ
  pub rest : Text

-- `value = value * 10 + (*text - '0')` in a word of `modulus`, while digits follow.
unfoldable pub scan_digits : ℕ → ℕ → ℕ → Text → Scan
scan_digits modulus value digits [] = record { value = value; digits = digits; rest = [] }
scan_digits modulus value digits (c ∷ cs) =
    let further = scan_digits modulus ((value * 10 + (c - b'0')) % modulus) (digits + 1) cs in
    if is_digit c then further else record { value = value; digits = digits; rest = c ∷ cs }

abbrev pub is_nil : Text → Bool
is_nil [] = true
is_nil (c ∷ cs) = false

-- The value of a text of digits only, and 0 for any other.
abbrev pub whole_number : Scan → ℕ
whole_number s = if is_nil s.rest && ltb 0 s.digits then s.value else 0

-- parse_id of object.c
unfoldable pub parse_id : Text → ℕ
unfolding scan_digits
parse_id s = whole_number (scan_digits (2 ^ 32) 0 0 s)

-- parse_decimal64 of event.c
unfoldable pub parse_decimal64 : Text → ℕ
unfolding scan_digits
parse_decimal64 s = whole_number (scan_digits (2 ^ 64) 0 0 s)

-- parse_decimal of policy.c: what follows the digits is ignored.
unfoldable pub parse_decimal : Text → ℕ
unfolding scan_digits
parse_decimal s = (scan_digits (2 ^ 32) 0 0 s).value
