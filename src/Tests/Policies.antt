-- ===== src/Tests/Policies.antt =====
-- The policy table.
use glass_os.Prelude.{take, ◌⊎◌, ◌≡◌, refl, false, List, [], ◌∷◌, ◌++◌, length, text, arith, ◌<◌}
use glass_os.Text.{text_equal, starts_with, parse_decimal}
use glass_os.Kernel.{PolicyRule}
use glass_os.Policy.{
  policy_check, policy_change_rule, parse_rule_line, policy_parse, loaded, parse_line,
  parse_revision_comment, policy_field_size, policy_max_rules,
}
use glass_os.Policy.Lex.{source_lines, skip_spaces, read_token}
use glass_os.Policy.Reason.{decision_text}
use glass_os.Policy.Applies.{Covers, Applies, NoneApplies}
use glass_os.Policy.Decide.{policy_check_lem}
use glass_os.Policy.Change.{check-policy_change_rule}
use glass_os.Policy.Parse.{IsWord, rule_line, parse_rule_line-rule_line}
use glass_os.Tests.Sample.{table, kernel}

policy_check_lem_example :
    let (d, _) = policy_check [] (text "shell") (text "system") (text "inspect") kernel in
    ((before : List PolicyRule) × (after : List PolicyRule) × (r : PolicyRule) × ((loaded []
          kernel.policy).rules
        ≡ before ++ r ∷ after)
      × Applies (text "shell") (text "system") (text "inspect") r
      × NoneApplies (text "shell") (text "system") (text "inspect") after
      × (d.allowed ≡ r.allow)
      × (d.reason
          ≡ take 47 (
              decision_text r.allow
                (text "inspect")
                r.rule_number
                (loaded [] kernel.policy).active_revision)))
    ⊎ (NoneApplies (text "shell") (text "system") (text "inspect") (loaded [] kernel.policy).rules
        × (d.allowed ≡ false)
        × (d.reason
            ≡ take 47 (
                decision_text false
                  (text "policy-default")
                  0
                  (loaded [] kernel.policy).active_revision)))
policy_check_lem_example =
    policy_check_lem [] (text "shell") (text "system") (text "inspect") kernel

table_room : length table.rules < policy_max_rules
table_room = omega arith

check-policy_change_rule_example :
    let (_, k') =
      policy_change_rule [] false (text "shell") (text "inspect") (text "system") kernel in
    let covered =
      Covers (take 47 (text "shell")) (text "shell")
      × Covers (take 47 (text "inspect")) (text "inspect")
      × Covers (take 47 (text "system")) (text "system") in
    (covered
      × ((policy_check [] (text "shell") (text "system") (text "inspect") k').0.allowed ≡ false))
    ⊎ ((¬ covered)
        × ((policy_check [] (text "shell") (text "system") (text "inspect") k').0.allowed
            ≡ (policy_check [] (text "shell") (text "system") (text "inspect") kernel).0.allowed))
check-policy_change_rule_example =
    check-policy_change_rule [] false (text "shell") (text "inspect") (text "system") kernel refl
      (text "shell") (text "system") (text "inspect") table_room

shell-IsWord : IsWord policy_field_size (text "shell")
unfolding text
shell-IsWord = record { clean = ground arith; some_bytes = λ e. cc; fits = omega arith }

inspect-IsWord : IsWord policy_field_size (text "inspect")
unfolding text
inspect-IsWord = record { clean = ground arith; some_bytes = λ e. cc; fits = omega arith }

clock-IsWord : IsWord policy_field_size (text "clock")
unfolding text
clock-IsWord = record { clean = ground arith; some_bytes = λ e. cc; fits = omega arith }

parse_rule_line-rule_line_example :
    parse_rule_line (rule_line false (text "shell") (text "inspect") (text "clock")) table
    ≡ record table {
      rules =
          table.rules
          ++ record {
            allow = false;
            rule_number = 2;
            capability = [];
            subject = text "shell";
            operation = text "inspect";
            object = text "clock";
          }
            ∷ [];
    }
parse_rule_line-rule_line_example =
    parse_rule_line-rule_line false (text "shell") (text "inspect") (text "clock") table
      shell-IsWord inspect-IsWord clock-IsWord table_room

parsed_source :
    (policy_parse
      (text "# GlassOS policy revision 7\nallow shell inspect *\n\ndeny cpu")).active_revision
    ≡ 7
unfolding policy_parse source_lines parse_line parse_revision_comment parse_rule_line starts_with
    parse_decimal skip_spaces read_token text_equal text
parsed_source = refl
