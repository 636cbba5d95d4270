-- ===== src/Console.antt =====
-- Console output (print_char, print_int_internal, print_hex_internal and printf of kernel/vga.c),
-- as the bytes that reach the debug console and COM1, and as what they do to the screen.
pub mod Output
use glass_os.Prelude.{
  ℕ, zero, suc, ◌+◌, ◌-◌, ◌/◌, ◌%◌, ◌^◌, List, [], ◌∷◌, ◌++◌, text, ltb, ◌==◌, if◌then◌else◌, Bool,
  ◌||◌,
}
use mathlib.Core.List.{reverse}
use glass_os.Text.{Text}
use glass_os.Text.Append.{decimal}
use glass_os.Kernel.{Kernel, M}
use glass_os.Screen.{put_char}

-- The byte goes to port 0xE9 and to COM1, and then to the screen.
unfoldable pub print_char : ℕ → Kernel → Kernel
print_char c k = record k {
  console = k.console ++ c ∷ [];
  serial = k.serial ++ c ∷ [];
  screen = put_char c k.screen;
}

-- The loop of print_string_internal.
unfoldable pub print_bytes : Text → Kernel → Kernel
print_bytes [] k = k
print_bytes (c ∷ cs) k = print_bytes cs (print_char c k)

unfoldable pub print : Text → M (Unit {0})
print s k = (tt, print_bytes s k)

-- print_int_internal of the int whose bits are `bits` (mod 2^32). For the least int the negation
-- overflows and the digit loop prints nothing behind the sign.
unfoldable pub int_text : ℕ → Text
int_text bits =
    let w = bits % 2 ^ 32 in
    if ltb w (2 ^ 31)
    then decimal 10 w
    else if w == 2 ^ 31
    then b'-' ∷ []
    else b'-' ∷ decimal 10 (2 ^ 32 - w)

abbrev hex_digit : ℕ → ℕ
hex_digit d = if ltb d 10 then b'0' + d else b'A' + (d - 10)

-- The digit loop of print_hex_internal, the last digit first.
unfoldable pub hex_digits : ℕ → ℕ → Text
hex_digits zero value = []
hex_digits (suc room) value =
    let rest = hex_digits room (value / 16) in
    if value == 0 then [] else hex_digit (value % 16) ∷ rest

-- print_hex_internal; 16 digits hold every uint64_t.
unfoldable pub hex_text : ℕ → Text
hex_text value = text "0x" ++ (if value == 0 then b'0' ∷ [] else reverse (hex_digits 16 value))

-- An argument of printf: a string, or the bits of an integer.
pub data Arg : Type 0 where
  str : Text → Arg
  num : ℕ → Arg

-- The bytes for one directive. A directive with no argument, or with one of another kind, has no
-- meaning in C and is written in no call: it prints nothing here.
unfoldable pub directive : ℕ → Arg → Text
directive c (str s) = if c == b's' then s else []
directive c (num n) = if c == b'd' then int_text n else if c == b'x' then hex_text n else []

abbrev pub is_directive : ℕ → Bool
is_directive c = c == b's' || c == b'd' || c == b'x'

-- The loop of printf, as the bytes that it prints.
unfoldable pub format : Text → List Arg → Text
format [] args = []
format (c ∷ []) args = c ∷ []
format (c ∷ d ∷ cs) [] =
    let plain = format (d ∷ cs) [] in
    let behind = format cs [] in
    if c == b'%' then (if is_directive d then behind else b'%' ∷ d ∷ behind) else c ∷ plain
format (c ∷ d ∷ cs) (a ∷ args) =
    let plain = format (d ∷ cs) (a ∷ args) in
    let kept = format cs (a ∷ args) in
    let behind = format cs args in
    if c == b'%'
    then (if is_directive d then directive d a ++ behind else b'%' ∷ d ∷ kept)
    else c ∷ plain

unfoldable pub printf : Text → List Arg → M (Unit {0})
unfolding format
printf fmt args = print (format fmt args)
