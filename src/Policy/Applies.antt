-- ===== src/Policy/Applies.antt =====
-- rule_matches of kernel/policy.c: the rules that apply to a request.
use glass_os.Prelude.{
  ◌⊎◌, inl, inr, Bool-cases, ◌≡◌, refl, sym, ◌∙◌, true, false, List, [], ◌∷◌, text, arith,
}
use glass_os.Text.{Text, text_equal}
use glass_os.Text.Equal.{text_equal-eq, text_equal_refl}
use glass_os.Kernel.{PolicyRule}
use glass_os.Policy.{field_matches, rule_matches}

module _ (actor target operation : Text) where
  -- No rule of the list matches.
  abbrev pub NoMatch : List PolicyRule → Type 0
  NoMatch [] = Unit {0}
  NoMatch (r ∷ rs) = (rule_matches actor target operation r ≡ false) × NoMatch rs

-- A field of a rule that is `*`, or the value.
abbrev pub Covers : Text → Text → Type 0
Covers field value = (field ≡ text "*") ⊎ (field ≡ value)

-- A rule whose three fields cover the request.
abbrev pub Applies : Text → Text → Text → PolicyRule → Type 0
Applies actor target operation r =
    Covers r.subject actor × Covers r.operation operation × Covers r.object target

-- None of the rules applies.
abbrev pub NoneApplies : Text → Text → Text → List PolicyRule → Type 0
NoneApplies actor target operation [] = Unit {0}
NoneApplies actor target operation (r ∷ rs) =
    (¬ Applies actor target operation r) × NoneApplies actor target operation rs

true-false : true ≡ false → ⊥
true-false h = cc

field_matches-Covers : (field value : Text) → field_matches field value ≡ true → Covers field value
unfolding field_matches
field_matches-Covers field value h = elim (Bool-cases (text_equal field (text "*"))) [
  | inl star ↦ inl (text_equal-eq field (text "*") star)
  | inr other ↦ inr (text_equal-eq field value (rw other at h))
]

Covers-field_matches : (field value : Text) → Covers field value → field_matches field value ≡ true
unfolding field_matches
Covers-field_matches field value (inl star) = rw (star, text_equal_refl (text "*")) refl
Covers-field_matches field value (inr same) = rw (same, text_equal_refl value) (ground arith)

module _ (actor target operation : Text) where
  pub rule_matches-Applies :
      (r : PolicyRule)
      → rule_matches actor target operation r ≡ true
      → Applies actor target operation r
  unfolding rule_matches
  rule_matches-Applies r h = (
    field_matches-Covers r.subject actor (ground arith),
    field_matches-Covers r.operation operation (ground arith),
    field_matches-Covers r.object target (ground arith),
  )

  pub not-Applies :
      (r : PolicyRule)
      → rule_matches actor target operation r ≡ false
      → ¬ Applies actor target operation r
  unfolding rule_matches
  not-Applies r h (subject, op, object) =
      let a = Covers-field_matches r.subject actor subject in
      let b = Covers-field_matches r.operation operation op in
      let c = Covers-field_matches r.object target object in
      true-false (sym (rw (a, b, c) refl) ∙ h)

  pub NoMatch-NoneApplies :
      (rs : List PolicyRule)
      → NoMatch actor target operation rs
      → NoneApplies actor target operation rs
  NoMatch-NoneApplies [] h = tt
  NoMatch-NoneApplies (r ∷ rs) (none_here, rest) =
      (not-Applies r none_here, NoMatch-NoneApplies rs rest)
