-- ===== src/Policy/Lex.antt =====
-- Lines and tokens of a policy source (kernel/policy.c).
use glass_os.Prelude.{ℕ, ◌-◌, Bool, ◌||◌, List, [], ◌∷◌, ◌++◌, length, ltb, ◌==◌, if◌then◌else◌}
use glass_os.Text.{Text}

abbrev pub is_blank : ℕ → Bool
is_blank c = c == b' ' || c == 9

abbrev pub is_token_end : ℕ → Bool
is_token_end c = is_blank c || c == 13 || c == 10

unfoldable pub skip_spaces : Text → Text
skip_spaces [] = []
skip_spaces (c ∷ cs) = if is_blank c then skip_spaces cs else c ∷ cs

-- The loop of read_token: what is read on from, and the token so far. Bytes past the capacity are
-- read and dropped.
unfoldable pub read_from : ℕ → Text → Text → Text × Text
read_from capacity token [] = ([], token)
read_from capacity token (c ∷ cs) =
    let further =
      read_from capacity (if ltb (length token) (capacity - 1) then token ++ c ∷ [] else token)
        cs in
    if is_token_end c then (c ∷ cs, token) else further

unfoldable pub read_token : ℕ → Text → Text × Text
unfolding skip_spaces read_from
read_token capacity s = read_from capacity [] (skip_spaces s)

-- A byte in front of the first of some lines.
abbrev put_first : ℕ → List Text → List Text
put_first c [] = (c ∷ []) ∷ []
put_first c (line ∷ lines) = (c ∷ line) ∷ lines

-- The lines that the outer loop of policy_parse meets: each ends before a newline or the NUL.
unfoldable pub source_lines : Text → List Text
source_lines [] = []
source_lines (c ∷ cs) =
    let rest = source_lines cs in if c == 10 then [] ∷ rest else put_first c rest
