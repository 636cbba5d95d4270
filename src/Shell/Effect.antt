-- ===== src/Shell/Effect.antt =====
-- What one command of the shell (kernel/main.c) may change.
use glass_os.Prelude.{
  ℕ, ◌≡◌, refl, ap, inl, inr, Bool, true, false, Option, none, some, Bool-cases, length, ◌<◌, text,
  ◌==◌,
}
use glass_os.Text.{Text, text_equal, starts_with}
use glass_os.Screen.{Screen}
use glass_os.Screen.Cursor.{Fits}
use glass_os.Kernel.{Kernel, M, event_ok}
use glass_os.Console.Output.{HasPolicy, Prints}
use glass_os.Policy.{policy_check, policy_max_rules}
use glass_os.Policy.Decide.{verdict}
use glass_os.Report.Shows.{event_print_transaction-Prints, event_print_chain-Prints}
use glass_os.Report.Inspect.{object_history-Prints}
use glass_os.Quiet.{
  Quiet, HasPolicy-Quiet, Prints-Quiet, printf-Quiet, event_record_kind-Quiet, event_record-Quiet,
  screen-Quiet,
}
use glass_os.Shell.{split_command, parse_sequence}
use glass_os.Shell.Commands.{
  shell, set_config, run_policy_command, policy_command, change_rule, Words, rule_words,
}
use glass_os.Shell.Round.{Command, draw, query, explain, print_help, reject, tx_prefix}
use glass_os.Shell.Effects.{checked, denied-Quiet, policy_show_command-Quiet}
use glass_os.Shell.Changes.{
  with_config, with_policy, stored, ruled, set_pair-Quiet, change_policy-Quiet,
}

-- Nothing but the journal, the registry and what is printed and drawn; or one value of the
-- configuration, by a `set` that the policy allows the shell; or one rule more, by a `policy` command
-- where the policy lets the shell change it.
pub data Effect (c : Command) (k k' : Kernel) : Type 0 where
  nothing : Quiet k k' → Effect c k k'
  set_key :
      (argument key value : Text)
      → c ≡ Command.set argument
      → split_command argument ≡ (key, some value)
      → verdict shell key (text "config:set") k.policy ≡ true
      → Quiet (with_config (stored key value k) k) k'
      → Effect c k k'
  add_rule :
      (argument : Option Text) (allow : Bool) (subject operation object : Text)
      → c ≡ Command.policy argument
      → verdict shell (text "policy/base.policy") (text "policy:change") k.policy ≡ true
      → length k.policy.rules < policy_max_rules
      → Quiet (with_policy (ruled allow subject operation object k) k) k'
      → Effect c k k'

module _ {k s : Kernel} (q : Quiet k s) where
  pub print_help-Quiet : Quiet k (print_help s).1
  unfolding print_help
  print_help-Quiet = printf-Quiet (printf-Quiet q _ _) _ _

  pub reject-Quiet : (word : Text) (event : ℕ) → Quiet k (reject word event s).1
  unfolding reject
  reject-Quiet word event = printf-Quiet (event_record-Quiet q _ _ _ _ _ _) _ _

module _ {k s : Kernel} (q : Quiet k s) (ready : HasPolicy k) (source : Text) where
  pub draw-Quiet :
      (right operation : Text) (paint : Screen → Screen) (message : Text)
      → ((t : Screen) → Fits t → Fits (paint t))
      → Quiet k (draw source right operation paint message s).1
  unfolding draw
  draw-Quiet right operation paint message fits =
      let d = checked q ready source (text "window") right in
      elim (Bool-cases (policy_check source shell (text "window") right s).0.allowed) [
        | inr no_right ↦ rw no_right (denied-Quiet d _)
        | inl allowed ↦
            rw allowed
              (printf-Quiet (event_record_kind-Quiet (screen-Quiet d _ (fits _)) _ _ _ _ _ _ _) _ _)
      ]

  pub query-Quiet :
      (target operation : Text) (report : M (Unit {0}))
      → ((t : Kernel) → HasPolicy t → Prints t (report t).1)
      → Quiet k (query source target operation report s).1
  unfolding query
  query-Quiet target operation report prints =
      let d = checked q ready source target operation in
      elim (Bool-cases (policy_check source shell target operation s).0.allowed) [
        | inr no_right ↦ rw no_right (denied-Quiet d _)
        | inl allowed ↦
            let asked =
              event_record_kind-Quiet d shell target operation event_ok _ _ (text "query") in
            rw allowed (Prints-Quiet asked (prints _ (HasPolicy-Quiet asked ready)))
      ]

pub explain-Prints : (argument : Text) (k : Kernel) → Prints k (explain argument k).1
unfolding explain
explain-Prints argument k = elim (Bool-cases (starts_with argument tx_prefix)) [
  | inl e ↦ rw e (event_print_transaction-Prints _ k)
  | inr e ↦ elim (Bool-cases (parse_sequence argument == 0)) [
    | inl f ↦ rw (e, f) (object_history-Prints argument k)
    | inr f ↦ rw (e, f) (event_print_chain-Prints _ k)
  ]
]

module _ (source : Text) {k s : Kernel} (q : Quiet k s) (ready : HasPolicy k) where
  pub set_config-Effect :
      (argument : Text) → Effect (Command.set argument) k (set_config source argument s).1
  unfolding set_config
  set_config-Effect argument =
      let (key, value) = split_command argument in
      elim (set_pair-Quiet source q ready key value) [
        | inl same ↦ nothing same
        | inr (v, e, allowed, changed) ↦
            set_key argument key v refl (ap (λ x. (key, x)) e) allowed changed
      ]

  abbrev pub command : Option Text → Command
  command argument = Command.policy argument

  change_rule-Effect :
      (argument : Option Text) (allow : Bool) (effect : Text) (words : Words)
      → Effect (command argument) k (change_rule source allow effect words s).1
  unfolding change_rule
  change_rule-Effect argument allow effect Words.too_few = nothing (printf-Quiet q _ _)
  change_rule-Effect argument allow effect (Words.rule subject operation object) =
      elim (change_policy-Quiet source q ready allow subject operation object) [
        | inl same ↦ nothing same
        | inr (allowed, room, changed) ↦
            add_rule argument allow subject operation object refl allowed room changed
      ]

  policy_command-Effect :
      (argument : Option Text) (effect : Text) (rest : Option Text)
      → Effect (command argument) k (policy_command source effect rest s).1
  unfolding policy_command
  policy_command-Effect argument effect rest = elim (Bool-cases (text_equal effect (text "show"))) [
    | inl e ↦ rw e (nothing (policy_show_command-Quiet q ready source))
    | inr e0 ↦ elim (Bool-cases (text_equal effect (text "allow"))) [
      | inl e ↦ rw (e0, e) (change_rule-Effect argument true effect (rule_words rest))
      | inr e1 ↦ elim (Bool-cases (text_equal effect (text "deny"))) [
        | inl e ↦ rw (e0, e1, e) (change_rule-Effect argument false effect (rule_words rest))
        | inr e2 ↦ rw (e0, e1, e2) (nothing (printf-Quiet q _ _))
      ]
    ]
  ]

  pub run_policy_command-Effect :
      (argument : Option Text)
      → Effect (command argument) k (run_policy_command source argument s).1
  unfolding run_policy_command
  run_policy_command-Effect none = nothing (printf-Quiet q _ _)
  run_policy_command-Effect (some a) =
      let (effect, rest) = split_command a in policy_command-Effect (some a) effect rest

abbrev pub is_demo : Command → Bool
is_demo Command.userdemo = true
is_demo c = false
