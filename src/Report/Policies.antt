-- ===== src/Report/Policies.antt =====
-- The reports of kernel/policy.c: the table, and the rules that concern an object.
use glass_os.Prelude.{ℕ, ◌+◌, List, [], ◌∷◌, length, text, ◌==◌, if◌then◌else◌}
use glass_os.Text.{Text}
use glass_os.Kernel.{PolicyRule, M, ◌>>◌, pure}
use glass_os.Console.{Arg, str, num, printf}
use glass_os.Policy.{loaded, rule_relevant_to_object}

abbrev rule_args : PolicyRule → List Arg
rule_args rule =
    num rule.rule_number
    ∷ str (if rule.allow then text "allow" else text "deny")
    ∷ str rule.subject
    ∷ str rule.operation
    ∷ str rule.object
    ∷ str rule.capability
    ∷ []

-- The loop of policy_show.
unfoldable pub show_rules : List PolicyRule → M (Unit {0})
show_rules [] = pure tt
show_rules (rule ∷ rules) = do
  printf (text "  rule=%d %s %s %s %s capability=%s\n") (rule_args rule)
  show_rules rules

unfoldable pub policy_show : Text → M (Unit {0})
policy_show source k =
    let t = loaded source k.policy in
    (do
      printf (text "policy/base.policy revision=%d rules=%d\n")
          (num t.active_revision ∷ num (length t.rules) ∷ [])
      show_rules t.rules)
      (record k { policy = t })

abbrev capability_args : PolicyRule → ℕ → List Arg
capability_args rule revision =
    str rule.capability
    ∷ str (if rule.allow then text "allows" else text "denies")
    ∷ str rule.subject
    ∷ str rule.operation
    ∷ num rule.rule_number
    ∷ num revision
    ∷ []

-- The loop of policy_print_capabilities_for_object, with the count of what was shown.
unfoldable pub show_capabilities : Text → ℕ → List PolicyRule → ℕ → M ℕ
show_capabilities object_name revision [] shown k = (shown, k)
show_capabilities object_name revision (rule ∷ rules) shown k =
    let hit = rule_relevant_to_object rule object_name in
    show_capabilities object_name revision rules (if hit then shown + 1 else shown) (
      if hit
      then (printf (text "  %s %s %s %s rule=%d rev=%d\n") (capability_args rule revision) k).1
      else k)

unfoldable pub policy_print_capabilities_for_object : Text → Text → M (Unit {0})
policy_print_capabilities_for_object source object_name k =
    let t = loaded source k.policy in
    let (_, k') = printf (text "relevant capabilities:\n") [] (record k { policy = t }) in
    let (shown, k'') = show_capabilities object_name t.active_revision t.rules 0 k' in
    if shown == 0 then printf (text "  none\n") [] k'' else (tt, k'')
