-- ===== src/Policy/Parse.antt =====
-- parse_rule_line and policy_parse of kernel/policy.c: rules are read back, numbered and bounded.
use mathlib.Core.List.{foldl}
use glass_os.Prelude.{
  ℕ, ◌+◌, ◌-◌, ◌≤◌, ◌<◌, ◌≡◌, ◌≢◌, refl, ap, sym, ◌∙◌, Bool, true, false, List, [], ◌∷◌, ◌++◌,
  length, length-append, text, arith, lt→ltb, lt→leb-false, leb, append_assoc, append-nil,
  Bool-cases, not, ◌&&◌, ◌||◌, take, ◌==◌, if◌then◌else◌, inl, inr,
}
use glass_os.Text.{Text, is_nil}
use glass_os.Text.{text_equal, copy_field}
use glass_os.Text.Append.{take_all}
use glass_os.Kernel.{PolicyRule, PolicyTable}
use glass_os.Policy.Lex.{is_blank, is_token_end, skip_spaces, read_from, read_token, source_lines}
use glass_os.Policy.{
  policy_max_rules, policy_field_size, stored_rule, parse_rule_line, parse_revision_comment,
  parse_line, policy_parse, with_capability, changed_table,
}
use glass_os.Policy.Change.{IsTable, Numbered}

-- No byte of the text is a space, a tab, a carriage return or a newline.
abbrev pub NoEnd : Text → Type 0
NoEnd [] = Unit {0}
NoEnd (c ∷ cs) = (c ≢ 32) × (c ≢ 9) × (c ≢ 13) × (c ≢ 10) × NoEnd cs

is_token_end-byte : (c : ℕ) (cs : Text) → NoEnd (c ∷ cs) → is_token_end c ≡ false
is_token_end-byte c cs (space, tab, return, newline, rest) = ground arith

-- A token that a field holds in full.
pub record IsWord (capacity : ℕ) (w : Text) : Type 0 where
  pub clean : NoEnd w
  pub some_bytes : w ≢ []
  pub fits : length w ≤ capacity - 1

-- A text at which a token ends.
abbrev pub Ends : Text → Type 0
Ends [] = Unit {0}
Ends (c ∷ cs) = is_token_end c ≡ true

read_from-word :
    (capacity : ℕ) (token w rest : Text)
    → NoEnd w
    → Ends rest
    → length token + length w ≤ capacity - 1
    → read_from capacity token (w ++ rest) ≡ (rest, token ++ w)
unfolding read_from
read_from-word capacity token [] [] clean ends fits = ap (λ t. ([], t)) (sym (append-nil token))
read_from-word capacity token [] (c ∷ cs) clean ends fits =
    rw ends (ap (λ t. (c ∷ cs, t)) (sym (append-nil token)))
read_from-word capacity token (c ∷ w) rest clean ends fits =
    rw (is_token_end-byte c w clean, lt→ltb (length token) (capacity - 1) (omega arith))
      (read_from-word capacity (token ++ c ∷ []) w rest clean.4 ends
          (omega (arith, length-append token (c ∷ [])))
        ∙ ap (λ t. (rest, t)) (append_assoc token (c ∷ []) w))

skip_spaces-word : (c : ℕ) (w : Text) → is_token_end c ≡ false → skip_spaces (c ∷ w) ≡ c ∷ w
unfolding skip_spaces
skip_spaces-word c w h = let plain : is_blank c ≡ false = ground arith in rw plain

-- read_token takes a clean word off the front of a text.
pub read_token-word :
    (capacity : ℕ) (w rest : Text)
    → IsWord capacity w
    → Ends rest
    → read_token capacity (w ++ rest) ≡ (rest, w)
unfolding read_token
read_token-word capacity [] rest h ends = absurd (h.some_bytes refl)
read_token-word capacity (c ∷ w) rest h ends =
    rw (skip_spaces-word c (w ++ rest) (is_token_end-byte c w h.clean))
      (read_from-word capacity [] (c ∷ w) rest h.clean ends (omega (arith, h.fits)))

-- So it does behind a blank.
read_token-blank :
    (capacity : ℕ) (w rest : Text)
    → IsWord capacity w
    → Ends rest
    → read_token capacity (b' ' ∷ (w ++ rest)) ≡ (rest, w)
unfolding read_token skip_spaces
read_token-blank capacity w rest h ends =
    unfold read_token in read_token-word capacity w rest h ends

-- The text of a rule in a policy source.
abbrev pub rule_line : Bool → Text → Text → Text → Text
rule_line allow subject operation object =
    (if allow then text "allow" else text "deny")
    ++ b' ' ∷ (subject ++ b' ' ∷ (operation ++ b' ' ∷ (object ++ [])))

effect-IsWord : (allow : Bool) → IsWord 8 (if allow then text "allow" else text "deny")
unfolding text
effect-IsWord true = record { clean = ground arith; some_bytes = λ e. cc; fits = omega arith }
effect-IsWord false = record { clean = ground arith; some_bytes = λ e. cc; fits = omega arith }

is_nil-word : {capacity : ℕ} {w : Text} → IsWord capacity w → is_nil w ≡ false
is_nil-word {w = []} h = absurd (h.some_bytes refl)
is_nil-word {w = c ∷ w} h = refl

known_effect :
    (allow : Bool)
    → let e = if allow then text "allow" else text "deny" in
      ((not (text_equal e (text "allow")) && not (text_equal e (text "deny"))) ≡ false)
      × (text_equal e (text "allow") ≡ allow)
unfolding text text_equal
known_effect true = (refl, refl)
known_effect false = (refl, refl)

-- The text `allow` or `deny`, then a subject, an operation and an object with a space before each,
-- where each field has 1 to 47 bytes and none of them is a space, a tab, a carriage return or a
-- newline: if the table has fewer than 64 rules, parse_rule_line appends the rule with that effect and
-- with these three fields, numbered by its place, and changes nothing else of the table.
pub parse_rule_line-rule_line :
    (allow : Bool) (subject operation object : Text) (t : PolicyTable)
    → IsWord 48 subject
    → IsWord 48 operation
    → IsWord 48 object
    → length t.rules < 64
    → parse_rule_line (rule_line allow subject operation object) t ≡ record t {
      rules =
          t.rules
          ++ record {
            allow = allow;
            rule_number = length t.rules + 1;
            capability = [];
            subject = subject;
            operation = operation;
            object = object;
          }
            ∷ [];
    }
unfolding parse_rule_line copy_field
parse_rule_line-rule_line allow subject operation object t hs ho hb room = rw (
  read_token-word 8 (if allow then text "allow" else text "deny")
      (b' ' ∷ (subject ++ b' ' ∷ (operation ++ b' ' ∷ (object ++ [])))) (effect-IsWord allow) refl,
  read_token-blank policy_field_size subject (b' ' ∷ (operation ++ b' ' ∷ (object ++ []))) hs refl,
  read_token-blank policy_field_size operation (b' ' ∷ (object ++ [])) ho refl,
  read_token-blank policy_field_size object [] hb tt,
  (known_effect allow).0,
  (known_effect allow).1,
  is_nil-word hs,
  is_nil-word ho,
  is_nil-word hb,
  lt→leb-false (length t.rules) policy_max_rules room,
  take_all (policy_field_size - 1) subject hs.fits,
  take_all (policy_field_size - 1) operation ho.fits,
  take_all (policy_field_size - 1) object hb.fits,
)

-- What the loop of policy_parse keeps.
record Counted (t : PolicyTable) : Type 0 where
  fits : length t.rules ≤ policy_max_rules
  numbered : Numbered 1 t.rules

pub Numbered-snoc :
    (n : ℕ) (rs : List PolicyRule) (r : PolicyRule)
    → Numbered n rs
    → r.rule_number ≡ n + length rs
    → Numbered n (rs ++ r ∷ [])
Numbered-snoc n [] r h e = omega arith
Numbered-snoc n (x ∷ rs) r h e = (h.0, Numbered-snoc (n + 1) rs r h.1 (omega arith))

last_test :
    (b : Bool) (t : PolicyTable)
    → (b || leb policy_max_rules (length t.rules)) ≡ false
    → length t.rules < policy_max_rules
last_test b t h = ground arith

guarded-Counted :
    (blocked : Bool) (r : PolicyRule) (t : PolicyTable)
    → Counted t
    → (blocked ≡ false → length t.rules < policy_max_rules)
    → r.rule_number ≡ length t.rules + 1
    → Counted (if blocked then t else record t { rules = t.rules ++ r ∷ [] })
guarded-Counted true r t v room e = v
guarded-Counted false r t v room e = record {
  fits = let free = room refl in omega (arith, free, length-append t.rules (r ∷ []));
  numbered = Numbered-snoc 1 t.rules r v.numbered (omega arith);
}

parse_rule_line-Counted :
    (line : Text) (t : PolicyTable) → Counted t → Counted (parse_rule_line line t)
unfolding parse_rule_line copy_field
parse_rule_line-Counted line t v = guarded-Counted _ _ t v (λ e. last_test _ t e) refl

parse_line-Counted : (line : Text) (t : PolicyTable) → Counted t → Counted (parse_line line t)
unfolding parse_line
parse_line-Counted line t v = by_trimmed (skip_spaces (take 159 line))
  where
    comment : (s : Text) → Counted (parse_revision_comment s t)
    comment s = unfold parse_revision_comment in ground arith

    by_trimmed :
        (s : Text)
        → Counted (elim s [
          | [] ↦ t
          | c ∷ cs ↦
              if c == b'#' then parse_revision_comment (c ∷ cs) t else parse_rule_line (c ∷ cs) t
        ])
    by_trimmed [] = v
    by_trimmed (c ∷ cs) = elim (Bool-cases (c == b'#')) [
      | inl e ↦ rw e (comment (c ∷ cs))
      | inr e ↦ rw e (parse_rule_line-Counted (c ∷ cs) t v)
    ]

parse_lines-Counted :
    (lines : List Text) (t : PolicyTable)
    → Counted t
    → Counted (foldl (λ t line. parse_line line t) t lines)
parse_lines-Counted [] t v = v
parse_lines-Counted (line ∷ lines) t v =
    parse_lines-Counted lines (parse_line line t) (parse_line-Counted line t v)

-- Whatever the source, policy_parse leaves a loaded table of at most 64 rules, numbered from 1 in
-- their order, and a revision that is not 0.
pub policy_parse-IsTable :
    (source : Text) → IsTable (policy_parse source) × ((policy_parse source).active_revision ≢ 0)
unfolding policy_parse
policy_parse-IsTable source =
    (record { ready = refl; fits = parsed.fits; numbered = parsed.numbered }, ground arith)
  where
    parsed : Counted (
        foldl
          (λ t line. parse_line line t)
          (record { rules = []; active_revision = 0; policy_loaded = false })
          (source_lines source))
    parsed =
        parse_lines-Counted (source_lines source) _ (record { fits = omega arith; numbered = tt })

-- The table that policy_change_rule makes is loaded, has at most 64 rules numbered from 1 in their
-- order, and a new rule has the next number, if the table had these properties and room.
pub changed_table-IsTable :
    (allow : Bool) (subject operation object : Text) (t : PolicyTable)
    → length t.rules < policy_max_rules
    → IsTable t
    → IsTable (changed_table allow subject operation object t)
changed_table-IsTable allow subject operation object t room v = record {
  ready = v.ready;
  fits = omega (arith, length-append t.rules (new ∷ []));
  numbered = Numbered-snoc 1 t.rules new v.numbered (omega arith);
}
  where
    new : PolicyRule
    new = with_capability (stored_rule allow subject operation object (length t.rules + 1))
