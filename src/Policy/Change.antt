-- ===== src/Policy/Change.antt =====
-- policy_change_rule of kernel/policy.c, and the decisions that follow it.
use glass_os.Prelude.{
  ℕ, ◌+◌, ◌≤◌, ◌<◌, ◌≡◌, refl, ap, ◌∙◌, ◌⊎◌, inl, inr, Bool-cases, take, Bool, true, false, List,
  [], ◌∷◌, length, text, arith, lt→leb-false, le→leb, if◌then◌else◌,
}
use glass_os.Text.{Text, copy_field}
use glass_os.Kernel.{Kernel, PolicyRule, PolicyTable, next32}
use glass_os.Event.Frame.{policy_frame}
use glass_os.Console.{print, print_char, print_bytes}
use glass_os.Policy.{
  rule_matches, format_decision, policy_check, policy_max_rules, policy_change_rule, changed_table,
  stored_rule, register_capability_object, build_capability_name, with_capability,
}
use glass_os.Policy.Applies.{Covers, rule_matches-Applies, not-Applies}
use glass_os.Policy.Decide.{decide-append, decide_revision, loaded-ready, allowed-verdict, verdict}

policy-register_capability_object :
    (rule : PolicyRule) (o : ℕ) (k : Kernel)
    → (register_capability_object rule o k).1.policy ≡ k.policy
unfolding register_capability_object
policy-register_capability_object rule o k = refl

policy-print_bytes : (s : Text) (k : Kernel) → (print_bytes s k).policy ≡ k.policy
unfolding print_bytes print_char
policy-print_bytes [] k = refl
policy-print_bytes (c ∷ cs) k = policy-print_bytes cs (print_char c k)

policy-print : (s : Text) (k : Kernel) → (print s k).1.policy ≡ k.policy
unfolding print
policy-print s k = policy-print_bytes s k

-- The rules are numbered from 1, and at most POLICY_MAX_RULES.
abbrev pub Numbered : ℕ → List PolicyRule → Type 0
Numbered n [] = Unit {0}
Numbered n (r ∷ rs) = (r.rule_number ≡ n) × Numbered (n + 1) rs

pub record IsTable (t : PolicyTable) : Type 0 where
  pub ready : t.policy_loaded ≡ true
  pub fits : length t.rules ≤ policy_max_rules
  pub numbered : Numbered 1 t.rules

verdict-changed_table :
    (allow : Bool) (subject operation object : Text) (t : PolicyTable) (actor target op : Text)
    → verdict actor target op (changed_table allow subject operation object t) ≡ (
        if rule_matches actor target op
          (stored_rule allow subject operation object (length t.rules + 1))
        then allow
        else verdict actor target op t)
unfolding rule_matches
verdict-changed_table allow subject operation object t actor target op =
    ap (λ d. d.0)
      (decide-append actor target op (next32 t.active_revision) t.rules
        (with_capability (stored_rule allow subject operation object (length t.rules + 1)))
        (refusal (next32 t.active_revision)))
    ∙ ground (
      arith,
      decide_revision actor target op (next32 t.active_revision) t.active_revision t.rules
          (refusal (next32 t.active_revision)) (refusal t.active_revision) refl,
    )
  where
    refusal : ℕ → Bool × Text
    refusal revision = (false, format_decision false (text "policy-default") 0 revision)

module _ (source : Text) (allow : Bool) (subject operation object : Text) (k : Kernel)
    (ready : k.policy.policy_loaded ≡ true) where
  abbrev added : PolicyRule
  added = stored_rule allow subject operation object (length k.policy.rules + 1)

  pub policy_change_rule-table :
      length k.policy.rules < policy_max_rules
      → let (done, k') = policy_change_rule source allow subject operation object k in
        (done ≡ true) × (k'.policy ≡ changed_table allow subject operation object k.policy)
  unfolding policy_change_rule build_capability_name copy_field
  policy_change_rule-table room =
      rw (policy_change_rule, loaded-ready source k.policy ready, lt→leb-false _ _ room)
        (refl, simp (policy_frame, policy-print, policy-register_capability_object))

  -- A full table refuses a new rule: policy_change_rule returns 0 and the table stays as it is.
  pub policy_change_rule_full :
      policy_max_rules ≤ length k.policy.rules
      → let (done, k') = policy_change_rule source allow subject operation object k in
        (done ≡ false) × (k'.policy ≡ k.policy)
  unfolding policy_change_rule
  policy_change_rule_full full =
      rw (policy_change_rule, loaded-ready source k.policy ready, le→leb _ _ full)
        (refl, simp policy_frame)

  checked_after :
      (actor target op : Text)
      → length k.policy.rules < policy_max_rules
      → let (_, k') = policy_change_rule source allow subject operation object k in
        (policy_check source actor target op k').0.allowed ≡ (
          if rule_matches actor target op added
          then allow
          else (policy_check source actor target op k).0.allowed)
  checked_after actor target op room =
      rw
        (
          allowed-verdict source actor target op
              (policy_change_rule source allow subject operation object k).1,
          allowed-verdict source actor target op k,
          (policy_change_rule-table room).1,
          loaded-ready source (changed_table allow subject operation object k.policy) ready,
          loaded-ready source k.policy ready,
        )
        (verdict-changed_table allow subject operation object k.policy actor target op)

  -- With a policy loaded and room in the table, once policy_change_rule added a rule: where the first
  -- 47 bytes of the subject, the operation and the object that it was given are each `*` or those of
  -- a request, policy_check gives this request the effect of the rule, and else the answer that the
  -- request got before.
  pub check-policy_change_rule :
      (actor target op : Text)
      → length k.policy.rules < policy_max_rules
      → let (_, k') = policy_change_rule source allow subject operation object k in
        let covered =
          Covers (take 47 subject) actor
          × Covers (take 47 operation) op
          × Covers (take 47 object) target in
        (covered × ((policy_check source actor target op k').0.allowed ≡ allow))
        ⊎ ((¬ covered)
            × ((policy_check source actor target op k').0.allowed
                ≡ (policy_check source actor target op k).0.allowed))
  unfolding copy_field
  check-policy_change_rule actor target op room =
      elim (Bool-cases (rule_matches actor target op added)) [
        | inl h ↦ inl (
          rule_matches-Applies actor target op added h,
          checked_after actor target op room ∙ rw h refl,
        )
        | inr h ↦
            inr
              (not-Applies actor target op added h, checked_after actor target op room ∙ rw h refl)
      ]
