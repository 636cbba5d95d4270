-- ===== src/Shell.antt =====
-- The line helpers of the shell (kernel/main.c): the splitting of a command line, and the texts that
-- name the target of a command's transaction.
pub mod Split
pub mod Commands
pub mod Modules
pub mod Round
pub mod Effects
pub mod Files
pub mod Changes
pub mod Effect
pub mod Rounds
pub mod Words
pub mod Commits
pub mod Outcome
pub mod Closing
pub mod Session
use glass_os.Prelude.{
  ℕ, zero, suc, ◌+◌, ◌-◌, ◌*◌, ◌^◌, Option, none, some, Bool, true, false, ◌&&◌, List, [], ◌∷◌,
  ◌++◌, length, ltb, ◌==◌, if◌then◌else◌, text,
}
use glass_os.Text.{Text, append_text, digits_of, scan_digits, is_nil, Scan}

-- The first loop of split_command: what stands before the first space, and what is left.
unfoldable pub scan_word : Text → Text × Text
scan_word [] = ([], [])
scan_word (c ∷ cs) =
    let (word, rest) = scan_word cs in if c == b' ' then ([], c ∷ cs) else (c ∷ word, rest)

unfoldable pub drop_spaces : Text → Text
drop_spaces [] = []
drop_spaces (c ∷ cs) = let rest = drop_spaces cs in if c == b' ' then rest else c ∷ cs

abbrev pub unless_empty : Text → Option Text
unless_empty [] = none
unless_empty (c ∷ cs) = some (c ∷ cs)

-- The argument behind a command, for what is left behind its word.
abbrev pub argument_of : Text → Option Text
argument_of [] = none
argument_of (c ∷ cs) = unless_empty (drop_spaces cs)

-- The line as it is cut, and the argument; the option is the null pointer.
unfoldable pub split_command : Text → Text × Option Text
unfolding scan_word drop_spaces
split_command line = let (word, rest) = scan_word line in (word, argument_of rest)

-- parse_sequence: 0 for a text with something behind its digits.
unfoldable pub parse_sequence : Text → ℕ
unfolding scan_digits
parse_sequence s =
    let scan = scan_digits (2 ^ 64) 0 0 s in if is_nil scan.rest then scan.value else 0

-- `room` bytes at most, up to the first space.
unfoldable pub first_token : ℕ → Text → Text
first_token zero s = []
first_token (suc room) [] = []
first_token (suc room) (c ∷ cs) =
    let rest = first_token room cs in if c == b' ' then [] else c ∷ rest

-- A null pointer reads as the empty text.
unfoldable pub copy_first_token : ℕ → Option Text → Text
unfolding first_token
copy_first_token capacity none = []
copy_first_token capacity (some source) = first_token (capacity - 1) source
