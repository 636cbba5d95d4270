-- ===== src/Shell/Split.antt =====
-- split_command and copy_first_token of kernel/main.c against the words of a line.
use glass_os.Prelude.{
  ℕ, suc, ◌≡◌, ◌≢◌, refl, ap, ◌⊎◌, inl, inr, Option, none, some, Bool-cases, [], ◌∷◌, ◌++◌,
  replicate, append-nil, ◌==◌, arith,
}
use glass_os.Text.{Text}
use glass_os.Shell.{scan_word, drop_spaces, unless_empty, argument_of, split_command}

abbrev pub spaces : ℕ → Text
spaces n = replicate n b' '

-- A text without a space.
abbrev pub IsOneWord : Text → Type 0
IsOneWord [] = Unit {0}
IsOneWord (c ∷ cs) = (c ≢ b' ') × IsOneWord cs

-- The text is empty or begins with a space.
abbrev BeginsBlank : Text → Type 0
BeginsBlank [] = Unit {0}
BeginsBlank (c ∷ cs) = c ≡ b' '

scan_word_lem :
    (line : Text)
    → let (word, rest) = scan_word line in (line ≡ word ++ rest) × IsOneWord word × BeginsBlank rest
unfolding scan_word
scan_word_lem [] = (refl, tt, tt)
scan_word_lem (c ∷ cs) = elim (Bool-cases (c == b' ')) [
  | inl h ↦ rw h (refl, tt, ground (arith, h))
  | inr h ↦
      let (split, word, blank) = scan_word_lem cs in
      rw h (ap (λ r. c ∷ r) split, (λ e. ground (arith, e, h), word), blank)
]

-- The text is empty or begins with another byte than a space.
abbrev BeginsFull : Text → Type 0
BeginsFull [] = Unit {0}
BeginsFull (c ∷ cs) = c ≢ b' '

drop_spaces_lem :
    (s : Text) → ((n : ℕ) × (s ≡ spaces n ++ drop_spaces s)) × BeginsFull (drop_spaces s)
unfolding drop_spaces
drop_spaces_lem [] = ((0, refl), tt)
drop_spaces_lem (c ∷ cs) = elim (Bool-cases (c == b' ')) [
  | inl h ↦
      let ((n, split), full) = drop_spaces_lem cs in
      let space : c ≡ b' ' = ground (arith, h) in
      rw h ((suc n, rw space (ap (λ r. b' ' ∷ r) split)), full)
  | inr h ↦ rw h ((0, refl), λ e. ground (arith, e, h))
]

-- What stands behind the word of a line, for its argument.
abbrev pub Behind : Text → Option Text → Type 0
Behind rest argument =
    ((argument ≡ none) × ((n : ℕ) × (rest ≡ spaces n)))
    ⊎ ((c : ℕ) × (further : Text) × (n : ℕ) × (argument ≡ some (c ∷ further))
        × (c ≢ b' ')
        × (rest ≡ spaces (suc n) ++ c ∷ further))

Behind-spaces : (n : ℕ) (d : Text) → BeginsFull d → Behind (b' ' ∷ (spaces n ++ d)) (unless_empty d)
Behind-spaces n [] full = inl (refl, (suc n, ap (λ r. b' ' ∷ r) (append-nil (spaces n))))
Behind-spaces n (c ∷ d) full = inr (c, d, n, refl, full, refl)

argument_of_lem : (rest : Text) → BeginsBlank rest → Behind rest (argument_of rest)
argument_of_lem [] blank = inl (refl, (0, refl))
argument_of_lem (c ∷ cs) blank =
    let ((n, split), full) = drop_spaces_lem cs in
    let shown : c ∷ cs ≡ b' ' ∷ (spaces n ++ drop_spaces cs) =
      rw blank (ap (λ r. b' ' ∷ r) split) in
    rw shown (Behind-spaces n (drop_spaces cs) full)

-- split_command cuts a line at its first space: what it leaves is the word before it, without a
-- space. The argument begins with another byte than a space, and the line is the word, one or more
-- spaces, and the argument; or there is no argument, and the line is the word and spaces only.
pub split_command_lem :
    (line : Text)
    → let (word, argument) = split_command line in
      IsOneWord word × ((rest : Text) × (line ≡ word ++ rest) × Behind rest argument)
unfolding split_command
split_command_lem line =
    let (split, word, blank) = scan_word_lem line in
    (word, ((scan_word line).1, split, argument_of_lem (scan_word line).1 blank))
