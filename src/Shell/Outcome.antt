-- ===== src/Shell/Outcome.antt =====
-- Which commands of the shell (kernel/main.c) succeed, by the table of rules and the configuration.
use glass_os.Prelude.{
  ℕ, ◌≡◌, refl, sym, ap, ◌∙◌, inl, inr, Bool, true, false, ◌&&◌, Option, none, some, Option-cases,
  Bool-cases, length, ltb, leb, text, arith,
}
use glass_os.Text.{Text, text_equal}
use glass_os.Screen.{Screen}
use glass_os.Kernel.{Kernel, M}
use glass_os.Console.Output.{HasPolicy}
use glass_os.Event.{event_set_current}
use glass_os.Policy.{PolicyDecision, policy_check, policy_change_rule, policy_max_rules}
use glass_os.Policy.Decide.{verdict, loaded-ready}
use glass_os.Config.{config_get, config_set, find_entry}
use glass_os.Quiet.{Quiet, HasPolicy-Quiet, set_current-Quiet}
use glass_os.Shell.{split_command}
use glass_os.Shell.Commands.{
  shell, denied, show_config, answer_key, set_config, set_pair, change_key, policy_show_command,
  change_policy, change_rule, policy_command, run_policy_command, rule_words, operation_word,
  object_word,
}
use glass_os.Shell.Round.{Command, run_command, draw, query, reject}
use glass_os.Shell.Effects.{checked}
use glass_os.Shell.Effect.{is_demo}
use glass_os.Shell.Changes.{decided}
use glass_os.Shell.Commits.{
  commits, is_some, behind, may_set, may_do_policy, has_key, config_get-has_key,
}

module _ {k s : Kernel} (q : Quiet k s) (ready : HasPolicy k) (source : Text) where
  draw_result :
      (right operation : Text) (paint : Screen → Screen) (message : Text)
      → (draw source right operation paint message s).0
        ≡ verdict shell (text "window") right k.policy
  unfolding draw denied
  draw_result right operation paint message =
      let d = decided source q ready (text "window") right in
      elim (Bool-cases (policy_check source shell (text "window") right s).0.allowed) [
        | inl may ↦ rw may (sym may ∙ d)
        | inr no_right ↦ rw no_right (sym no_right ∙ d)
      ]

  query_result :
      (target operation : Text) (report : M (Unit {0}))
      → (query source target operation report s).0 ≡ verdict shell target operation k.policy
  unfolding query denied
  query_result target operation report =
      let d = decided source q ready target operation in
      elim (Bool-cases (policy_check source shell target operation s).0.allowed) [
        | inl may ↦ rw may (sym may ∙ d)
        | inr no_right ↦ rw no_right (sym no_right ∙ d)
      ]

  answered :
      (key : Text) (policy : PolicyDecision) (value : Option Text) (t : Kernel)
      → (answer_key key policy value t).0 ≡ is_some value
  unfolding answer_key
  answered key policy none t = refl
  answered key policy (some v) t = refl

  get_result :
      (key : Text)
      → (show_config source key s).0
        ≡ (verdict shell key (text "config:get") k.policy && has_key key k.config)
  unfolding show_config denied
  get_result key =
      let right = text "config:get" in
      let d = decided source q ready key right in
      let c = (checked q ready source key right).config in
      elim (Bool-cases (policy_check source shell key right s).0.allowed) [
        | inl may ↦
            let v : verdict shell key right k.policy ≡ true = sym d ∙ may in
            rw (may, v)
              (answered key _ _ _ ∙ config_get-has_key key _ ∙ ap (λ es. has_key key es) c)
        | inr no_right ↦
            let v : verdict shell key right k.policy ≡ false = sym d ∙ no_right in
            rw (no_right, v) refl
      ]

  config_set_result :
      (key value : Text) (t : Kernel)
      → (config_set key value t).0 ≡ is_some (config_get key t.config)
  unfolding config_set config_get
  config_set_result key value t = elim (Option-cases (find_entry key t.config)) [
    | inl e ↦ rw (config_set, config_get, e) refl
    | inr (x, e) ↦ rw (config_set, config_get, e) refl
  ]

  change_key_result :
      (key value : Text) (policy : PolicyDecision) (t : Kernel)
      → (change_key key value policy t).0 ≡ is_some (config_get key t.config)
  unfolding change_key
  change_key_result key value policy t =
      let inside = (event_set_current policy.event t).1 in
      let r = config_set_result key value inside in
      elim (Bool-cases (config_set key value inside).0) [
        | inl done ↦ rw done (sym done ∙ r)
        | inr failed ↦ rw failed (sym failed ∙ r)
      ]

  set_result :
      (key : Text) (value : Option Text) → (set_pair source key value s).0 ≡ may_set key value k
  unfolding set_pair denied
  set_result key none = refl
  set_result key (some v) =
      let right = text "config:set" in
      let d = decided source q ready key right in
      let c = (checked q ready source key right).config in
      elim (Bool-cases (policy_check source shell key right s).0.allowed) [
        | inl may ↦
            let w : verdict shell key right k.policy ≡ true = sym d ∙ may in
            rw (may, w)
              (change_key_result key v _ _ ∙ config_get-has_key key _ ∙ ap (λ es. has_key key es) c)
        | inr no_right ↦
            let w : verdict shell key right k.policy ≡ false = sym d ∙ no_right in
            rw (no_right, w) refl
      ]

  show_result :
      (policy_show_command source s).0
      ≡ verdict shell (text "policy/base.policy") (text "policy:show") k.policy
  unfolding policy_show_command denied
  show_result =
      let name = text "policy/base.policy" in
      let d = decided source q ready name (text "policy:show") in
      elim (Bool-cases (policy_check source shell name (text "policy:show") s).0.allowed) [
        | inl may ↦ rw may (sym may ∙ d)
        | inr no_right ↦ rw no_right (sym no_right ∙ d)
      ]

  -- A rule is added where there is room for one.
  policy_change_rule_result :
      (allow : Bool) (subject operation object : Text) {t : Kernel}
      → Quiet k t
      → (policy_change_rule source allow subject operation object t).0
        ≡ ltb (length k.policy.rules) 64
  unfolding policy_change_rule
  policy_change_rule_result allow subject operation object {t} same =
      let table = loaded-ready source t.policy (HasPolicy-Quiet same ready) ∙ same.policy in
      elim (Bool-cases (leb policy_max_rules (length k.policy.rules))) [
        | inl full ↦ rw (table, full) (ground (arith, full))
        | inr room ↦ rw (table, room) (ground (arith, room))
      ]

  change_result :
      (allow : Bool) (subject operation object : Text)
      → (change_policy source allow subject operation object s).0 ≡ (
          verdict shell (text "policy/base.policy") (text "policy:change") k.policy
          && ltb (length k.policy.rules) 64)
  unfolding change_policy denied
  change_result allow subject operation object =
      let name = text "policy/base.policy" in
      let right = text "policy:change" in
      let d = decided source q ready name right in
      elim (Bool-cases (policy_check source shell name right s).0.allowed) [
        | inl may ↦
            let v : verdict shell name right k.policy ≡ true = sym d ∙ may in
            rw (may, v)
              (policy_change_rule_result allow subject operation object
                (set_current-Quiet (checked q ready source name right) _))
        | inr no_right ↦
            let v : verdict shell name right k.policy ≡ false = sym d ∙ no_right in
            rw (no_right, v) refl
      ]

  change_words_result :
      (allow : Bool) (effect : Text) (rest : Option Text)
      → (change_rule source allow effect (rule_words rest) s).0 ≡ (
          is_some (behind (behind rest))
          && verdict shell (text "policy/base.policy") (text "policy:change") k.policy
          && ltb (length k.policy.rules) 64)
  unfolding change_rule rule_words operation_word object_word
  change_words_result allow effect none = refl
  change_words_result allow effect (some line) = elim (Option-cases (split_command line).1) [
    | inl e ↦ rw (rule_words, operation_word, change_rule, behind, e) refl
    | inr (rest, e) ↦ elim (Option-cases (split_command rest).1) [
      | inl f ↦ rw (rule_words, operation_word, object_word, change_rule, behind, e, f) refl
      | inr (object, f) ↦
          rw (rule_words, operation_word, object_word, change_rule, behind, e, f)
            (change_result allow _ _ _)
    ]
  ]

  policy_result :
      (word : Text) (rest : Option Text)
      → (policy_command source word rest s).0 ≡ may_do_policy word rest k
  unfolding policy_command
  policy_result word rest = elim (Bool-cases (text_equal word (text "show"))) [
    | inl e ↦ rw e show_result
    | inr e0 ↦ elim (Bool-cases (text_equal word (text "allow"))) [
      | inl e ↦ rw (e0, e) (change_words_result true word rest)
      | inr e1 ↦ elim (Bool-cases (text_equal word (text "deny"))) [
        | inl e ↦ rw (e0, e1, e) (change_words_result false word rest)
        | inr e2 ↦ rw (e0, e1, e2) refl
      ]
    ]
  ]

module _ (source : Text) (enter : ℕ → ℕ → M (Unit {0})) {k s : Kernel} (q : Quiet k s)
    (ready : HasPolicy k) where
  -- Every branch of the loop but `userdemo`.
  pub run_command-commits :
      (c : Command) (word target : Text) (event : ℕ)
      → is_demo c ≡ false
      → (run_command source enter c word target event s).0 ≡ commits c target k
  unfolding run_command set_config run_policy_command reject
  run_command-commits Command.help word target event plain = refl
  run_command-commits Command.clear word target event plain = draw_result q ready source _ _ _ _
  run_command-commits Command.window word target event plain = draw_result q ready source _ _ _ _
  run_command-commits Command.meminfo word target event plain = refl
  run_command-commits Command.time word target event plain = refl
  run_command-commits Command.ls word target event plain = refl
  run_command-commits Command.userdemo word target event plain = absurd (cc)
  run_command-commits Command.events word target event plain = refl
  run_command-commits Command.unknown word target event plain = refl
  run_command-commits (Command.cat a) word target event plain = refl
  run_command-commits (Command.run a) word target event plain = refl
  run_command-commits (Command.get a) word target event plain = get_result q ready source a
  run_command-commits (Command.set a) word target event plain = set_result q ready source _ _
  run_command-commits (Command.policy none) word target event plain = refl
  run_command-commits (Command.policy (some a)) word target event plain =
      policy_result q ready source _ _
  run_command-commits (Command.inspect a) word target event plain =
      query_result q ready source _ _ _
  run_command-commits (Command.expand a) word target event plain = query_result q ready source _ _ _
  run_command-commits (Command.why a) word target event plain = query_result q ready source _ _ _
  run_command-commits (Command.history a) word target event plain =
      query_result q ready source _ _ _
