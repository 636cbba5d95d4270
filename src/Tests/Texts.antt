-- ===== src/Tests/Texts.antt =====
-- Decimal numbers and decision texts.
use glass_os.Shell.{split_command, scan_word, drop_spaces}
use glass_os.Shell.Split.{IsOneWord, Behind, split_command_lem}
use glass_os.Prelude.{◌++◌, some, text, ◌≡◌, ◌<◌, ◌≤◌, ◌+◌, length, refl, arith}
use glass_os.Text.{Text, parse_decimal64, parse_id, append_decimal64}
use glass_os.Text.Decimal.{AllDigits, parse_decimal64-append_decimal64}

prefix_fits : length (text "transaction/") + 20 < 48
unfolding text
prefix_fits = omega arith

parse_decimal64-append_decimal64_example :
    (s : Text) × (append_decimal64 48 (text "transaction/") 18446744073709551615
      ≡ text "transaction/" ++ s)
    × AllDigits s
    × (0 < length s)
    × (length s ≤ 20)
    × (parse_decimal64 s ≡ 18446744073709551615)
parse_decimal64-append_decimal64_example =
    parse_decimal64-append_decimal64 48 (text "transaction/") 18446744073709551615 prefix_fits
      (omega arith)

decimal_run : append_decimal64 48 (text "transaction/") 120 ≡ text "transaction/120"
unfolding append_decimal64 text
decimal_run = refl

-- A query of digits wraps around at 2^32.
parse_id_wraps : parse_id (text "4294967297") ≡ 1
unfolding parse_id text
parse_id_wraps = refl

split_command_lem_example :
    let (word, argument) = split_command (text "cat  /README.TXT") in
    IsOneWord word
    × ((rest : Text) × (text "cat  /README.TXT" ≡ word ++ rest) × Behind rest argument)
split_command_lem_example = split_command_lem (text "cat  /README.TXT")

split_at_the_space : split_command (text "cat  a b") ≡ (text "cat", some (text "a b"))
unfolding split_command scan_word drop_spaces text
split_at_the_space = refl
