-- ===== src/Policy/Decide.antt =====
-- policy_check of kernel/policy.c: the last matching rule decides, and no match denies.
use glass_os.Prelude.{
  ◌⊎◌, inl, inr, Bool-cases, ℕ, ◌+◌, ◌^◌, ◌<◌, ◌≡◌, refl, ap, ◌∙◌, Bool, true, false, some, List,
  [], ◌∷◌, ◌++◌, take, text, arith, if◌then◌else◌,
}
use glass_os.Text.{Text}
use glass_os.Kernel.{Kernel, Event, event_ok, event_denied, PolicyRule, PolicyTable}
use glass_os.Event.{event_current, make_event, event_find}
use glass_os.Event.Sequence.{IsJournal}
use glass_os.Event.Record.{find-event_record_kind_parts}
use glass_os.Policy.{rule_matches, decide, format_decision, policy_check, loaded}
use glass_os.Policy.Reason.{decision_text, format_decision_lem}
use glass_os.Policy.Applies.{
  NoMatch, Applies, NoneApplies, rule_matches-Applies, NoMatch-NoneApplies,
}

module _ (actor target operation : Text) where
  decide-NoMatch :
      (revision : ℕ) (rules : List PolicyRule) (d : Bool × Text)
      → NoMatch actor target operation rules
      → decide actor target operation revision rules d ≡ d
  unfolding decide
  decide-NoMatch revision [] d h = refl
  decide-NoMatch revision (r ∷ rs) d h = rw h.0 (decide-NoMatch revision rs d h.1)

  decide_last :
      (revision : ℕ) (before : List PolicyRule) (r : PolicyRule) (after : List PolicyRule)
      (d : Bool × Text)
      → rule_matches actor target operation r ≡ true
      → NoMatch actor target operation after
      → decide actor target operation revision (before ++ r ∷ after) d
        ≡ (r.allow, format_decision r.allow operation r.rule_number revision)
  unfolding decide
  decide_last revision [] r after d m h = rw (decide, m) (decide-NoMatch revision after _ h)
  decide_last revision (x ∷ before) r after d m h = decide_last revision before r after _ m h

  pub decide-append :
      (revision : ℕ) (rules : List PolicyRule) (r : PolicyRule) (d : Bool × Text)
      → decide actor target operation revision (rules ++ r ∷ []) d ≡ (
          if rule_matches actor target operation r
          then (r.allow, format_decision r.allow operation r.rule_number revision)
          else decide actor target operation revision rules d)
  unfolding decide
  decide-append revision [] r d = refl
  decide-append revision (x ∷ rules) r d = decide-append revision rules r _

  -- Whether a request is allowed does not depend on the revision that the reason names.
  pub decide_revision :
      (revision revision' : ℕ) (rules : List PolicyRule) (d d' : Bool × Text)
      → d.0 ≡ d'.0
      → (decide actor target operation revision rules d).0
        ≡ (decide actor target operation revision' rules d').0
  unfolding decide
  decide_revision revision revision' [] d d' e = e
  decide_revision revision revision' (r ∷ rules) d d' e =
      decide_revision revision revision' rules _ _ (ground arith)

-- The last rule that matches, with what stands before and behind it.
last_match :
    (actor target operation : Text) (rules : List PolicyRule)
    → ((before : List PolicyRule) × (after : List PolicyRule) × (r : PolicyRule) × (rules
          ≡ before ++ r ∷ after)
        × (rule_matches actor target operation r ≡ true)
        × NoMatch actor target operation after)
      ⊎ NoMatch actor target operation rules
last_match actor target operation [] = inr tt
last_match actor target operation (x ∷ rules) = elim (last_match actor target operation rules) [
  | inl (before, after, r, split, m, rest) ↦
      inl (x ∷ before, after, r, ap (λ rs. x ∷ rs) split, m, rest)
  | inr none_behind ↦ elim (Bool-cases (rule_matches actor target operation x)) [
    | inl h ↦ inl ([], rules, x, refl, h, none_behind)
    | inr h ↦ inr (h, none_behind)
  ]
]

-- Whether a table allows a request.
abbrev pub verdict : Text → Text → Text → PolicyTable → Bool
verdict actor target operation t =
    (decide actor target operation t.active_revision t.rules
      (false, format_decision false (text "policy-default") 0 t.active_revision)).0

pub allowed-verdict :
    (source actor target operation : Text) (k : Kernel)
    → (policy_check source actor target operation k).0.allowed
      ≡ verdict actor target operation (loaded source k.policy)
unfolding policy_check
allowed-verdict source actor target operation k = refl

pub loaded-ready : (source : Text) (t : PolicyTable) → t.policy_loaded ≡ true → loaded source t ≡ t
unfolding loaded
loaded-ready source t ready = rw ready

module _ (source actor target operation : Text) (k : Kernel) where
  abbrev table : PolicyTable
  table = loaded source k.policy

  abbrev default : Bool × Text
  default = (false, format_decision false (text "policy-default") 0 table.active_revision)

  abbrev outcome : Bool × Text
  outcome = decide actor target operation table.active_revision table.rules default

  abbrev pub checked : Event
  checked =
      make_event actor target (text "policy_check") (if outcome.0 then event_ok else event_denied)
        (event_current k) outcome.1 (text "policy") (record k { policy = table })

  check-outcome :
      ((policy_check source actor target operation k).0.allowed ≡ outcome.0)
      × ((policy_check source actor target operation k).0.reason ≡ outcome.1)
  unfolding policy_check
  check-outcome = (refl, refl)

  -- policy_check looks for the last rule of the table whose subject, operation and object are each `*`
  -- or the request's. If there is one, the request is allowed exactly where that rule allows, and the
  -- reason is the first 47 bytes of a text: `allow:` or `deny:`, the request's operation, `,rev=` with
  -- the revision of the table and `,rule=` with the number of that rule, in decimal with ten digits at
  -- most, as a uint32_t has. If there is none, the request is denied, with the first 47 bytes of
  -- `deny:policy-default`, the revision and rule 0 for a reason.
  pub policy_check_lem :
      let (d, _) = policy_check source actor target operation k in
      ((before : List PolicyRule) × (after : List PolicyRule) × (r : PolicyRule) × (table.rules
          ≡ before ++ r ∷ after)
        × Applies actor target operation r
        × NoneApplies actor target operation after
        × (d.allowed ≡ r.allow)
        × (d.reason
            ≡ take 47 (decision_text r.allow operation r.rule_number table.active_revision)))
      ⊎ (NoneApplies actor target operation table.rules
          × (d.allowed ≡ false)
          × (d.reason
              ≡ take 47 (decision_text false (text "policy-default") 0 table.active_revision)))
  policy_check_lem = elim (last_match actor target operation table.rules) [
    | inl (before, after, r, split, m, rest) ↦
        let found : outcome
            ≡ (r.allow, format_decision r.allow operation r.rule_number table.active_revision) =
          ap (λ rs. decide actor target operation table.active_revision rs default) split
          ∙ decide_last actor target operation table.active_revision before r after default m
              rest in
        inl (
          before,
          after,
          r,
          split,
          rule_matches-Applies actor target operation r m,
          NoMatch-NoneApplies actor target operation after rest,
          check-outcome.0 ∙ ap (λ p. p.0) found,
          check-outcome.1 ∙ ap (λ p. p.1) found ∙ format_decision_lem _ _ _ _,
        )
    | inr h ↦
        let found : outcome ≡ default =
          decide-NoMatch actor target operation table.active_revision table.rules default h in
        inr (
          NoMatch-NoneApplies actor target operation table.rules h,
          check-outcome.0 ∙ ap (λ p. p.0) found,
          check-outcome.1 ∙ ap (λ p. p.1) found ∙ format_decision_lem _ _ _ _,
        )
  ]

  -- Every policy_check is journaled, on a valid journal whose counter is not at its end: the event
  -- that it returns can be found, and has the decision for its result and the (clipped) reason for
  -- its policy.
  pub find-policy_check :
      IsJournal k.journal
      → k.journal.next_sequence + 1 < 2 ^ 64
      → let (d, k') = policy_check source actor target operation k in
        (event_find d.event k'.journal ≡ some checked)
        × (checked.result ≡ (if d.allowed then event_ok else event_denied))
  unfolding policy_check make_event
  find-policy_check v room = (
    (find-event_record_kind_parts actor target (text "policy_check")
        (if outcome.0 then event_ok else event_denied) (event_current k) outcome.1 (text "policy")
        (record k { policy = table }) v room 0).0,
    refl,
  )
