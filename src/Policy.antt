-- ===== src/Policy.antt =====
-- The policy table (kernel/policy.c). `rule_count` is the length of `rules`, and
-- `base_policy_source`, which the build makes out of policy/base.policy, is an argument.
pub mod Lex
pub mod Reason
pub mod Applies
pub mod Decide
pub mod Change
pub mod Parse
unfoldable pub use Lex.{skip_spaces, read_token, source_lines}
use mathlib.Core.List.{foldl}
use glass_os.Prelude.{
  ℕ, zero, suc, ◌+◌, ◌%◌, Bool, true, false, not, ◌&&◌, ◌||◌, Option, none, some, List, [], ◌∷◌,
  ◌++◌, length, take, drop, text, leb, ltb, ◌==◌, if◌then◌else◌,
}
use glass_os.Text.{
  Text, text_equal, starts_with, copy_field, append_text, append_decimal32, parse_decimal, is_nil,
}
use glass_os.Kernel.{
  Kernel, PolicyRule, PolicyTable, EventResult, event_ok, event_denied, M, ◌>>=◌, ◌>>◌, pure, gets,
  modify, next32,
}
use glass_os.Object.{object_register, object_id}
use glass_os.Event.{
  event_record_kind, event_current, event_set_current, event_set_transaction, object_update_state,
  transaction_begin, transaction_commit,
}
use glass_os.Console.{print, int_text}

abbrev pub policy_max_rules : ℕ
policy_max_rules = 64

abbrev pub policy_field_size : ℕ
policy_field_size = 48

abbrev pub policy_decision_size : ℕ
policy_decision_size = 48

unfoldable pub field_matches : Text → Text → Bool
field_matches rule_field value = text_equal rule_field (text "*") || text_equal rule_field value

abbrev pub revision_prefix : Text
revision_prefix = text "# GlassOS policy revision "

unfoldable pub parse_revision_comment : Text → PolicyTable → PolicyTable
parse_revision_comment line t =
    if starts_with line revision_prefix
    then record t { active_revision = parse_decimal (drop 26 line) }
    else t

-- A rule as parse_rule_line stores it.
abbrev pub stored_rule : Bool → Text → Text → Text → ℕ → PolicyRule
stored_rule allow subject operation object rule_number = record {
  allow = allow;
  rule_number = rule_number;
  capability = [];
  subject = copy_field policy_field_size subject;
  operation = copy_field policy_field_size operation;
  object = copy_field policy_field_size object;
}

-- Four tokens; a line that does not begin with `allow` or `deny`, has fewer tokens, or meets a full
-- table is passed over.
unfoldable pub parse_rule_line : Text → PolicyTable → PolicyTable
parse_rule_line line t =
    let (line1, effect) = read_token 8 line in
    let (line2, subject) = read_token policy_field_size line1 in
    let (line3, operation) = read_token policy_field_size line2 in
    let (_, object) = read_token policy_field_size line3 in
    if (not (text_equal effect (text "allow")) && not (text_equal effect (text "deny")))
      || is_nil subject
      || is_nil operation
      || is_nil object
      || leb policy_max_rules (length t.rules)
    then t
    else record t {
      rules =
          t.rules
          ++ stored_rule (text_equal effect (text "allow")) subject operation object
              (length t.rules + 1)
            ∷ [];
    }

-- One round of the loop of policy_parse, on a line of up to 159 bytes.
unfoldable pub parse_line : Text → PolicyTable → PolicyTable
parse_line line t = elim (skip_spaces (take 159 line)) [
  | [] ↦ t
  | c ∷ cs ↦ if c == b'#' then parse_revision_comment (c ∷ cs) t else parse_rule_line (c ∷ cs) t
]

unfoldable pub policy_parse : Text → PolicyTable
policy_parse source =
    let t =
      foldl (λ t line. parse_line line t)
        (record { rules = []; active_revision = 0; policy_loaded = false }) (source_lines source) in
    record t {
      active_revision = if t.active_revision == 0 then 1 else t.active_revision;
      policy_loaded = true;
    }

-- `if (!policy_loaded) policy_parse(base_policy_source);`
unfoldable pub loaded : Text → PolicyTable → PolicyTable
loaded source t = if t.policy_loaded then t else policy_parse source

unfoldable pub policy_revision : Text → M ℕ
policy_revision source k =
    let t = loaded source k.policy in (t.active_revision, record k { policy = t })

unfoldable pub build_capability_name : ℕ → Text → Text → Text → Text
build_capability_name capacity subject operation object =
    append_text capacity
      (append_text capacity
        (append_text capacity
          (append_text capacity
            (append_text capacity (append_text capacity [] (text "capability/")) subject)
            (text "/"))
          operation)
        (text "/"))
      object

unfoldable pub build_capability_state : ℕ → Bool → ℕ → ℕ → Text
build_capability_state capacity allow rule_number active_revision =
    append_decimal32 capacity
      (append_text capacity
        (append_decimal32 capacity
          (append_text capacity [] (if allow then text "allow rule " else text "deny rule "))
          rule_number)
        (text " rev "))
      active_revision

unfoldable pub format_decision : Bool → Text → ℕ → ℕ → Text
format_decision allowed operation rule_number active_revision =
    append_decimal32 policy_decision_size
      (append_text policy_decision_size
        (append_decimal32 policy_decision_size
          (append_text policy_decision_size
            (append_text policy_decision_size
              (append_text policy_decision_size []
                (if allowed then text "allow:" else text "deny:"))
              operation)
            (text ",rev="))
          active_revision)
        (text ",rule="))
      rule_number

abbrev pub with_capability : PolicyRule → PolicyRule
with_capability r = record r {
  capability = build_capability_name policy_field_size r.subject r.operation r.object;
}

-- register_capability_object: the name goes into the rule, and the object into the registry.
unfoldable pub register_capability_object : PolicyRule → ℕ → M PolicyRule
register_capability_object rule policy_object k =
    let named = with_capability rule in
    let state =
      build_capability_state policy_field_size rule.allow rule.rule_number
        k.policy.active_revision in
    let (_, r) =
      object_register (text "capability") named.capability policy_object state (event_current k)
        k.registry in
    (named, record k { registry = r })

-- The loop of policy_init over the rules.
unfoldable pub register_capabilities : List PolicyRule → ℕ → M (List PolicyRule)
register_capabilities [] policy_object k = ([], k)
register_capabilities (rule ∷ rules) policy_object k =
    let (named, k') = register_capability_object rule policy_object k in
    let (rest, k'') = register_capabilities rules policy_object k' in (named ∷ rest, k'')

abbrev pub policy_name : Text
policy_name = text "policy/base.policy"

unfoldable pub policy_init : Text → ℕ → M (Unit {0})
policy_init source boot_event k =
    let (policy_object, r) =
      object_register (text "policy") policy_name (object_id (text "system") k.registry)
        (text "loading") boot_event k.registry in
    (do
      transaction ← transaction_begin (text "policy") policy_name boot_event
      event_set_current transaction
      event_set_transaction transaction
      modify (λ s. record s { policy = policy_parse source })
      t ← gets (λ s. s.policy)
      rules ← register_capabilities t.rules policy_object
      modify (λ s. record s { policy = record s.policy { rules = rules } })
      event_record_kind (text "policy") policy_name (text "load") event_ok boot_event
          (format_decision true (text "policy-bootstrap") 0 t.active_revision) (text "state")
      object_update_state policy_name (text "loaded")
      transaction_commit transaction
      event_set_transaction 0
      event_set_current boot_event)
      (record k { registry = r })

abbrev effect_text : Bool → Text
effect_text allow = if allow then text "allow" else text "deny"

-- The rule as policy_change_rule writes it in the table.
abbrev pub changed_table : Bool → Text → Text → Text → PolicyTable → PolicyTable
changed_table allow subject operation object t = record t {
  active_revision = next32 t.active_revision;
  rules =
      t.rules
      ++ with_capability (stored_rule allow subject operation object (length t.rules + 1)) ∷ [];
}

abbrev change_line : Bool → Text → Text → Text → PolicyTable → Text
change_line allow subject operation object t =
    text "policy revision="
    ++ (int_text t.active_revision
        ++ (text " rule="
            ++ (int_text (length t.rules)
                ++ (text " "
                    ++ (effect_text allow
                        ++ (text " "
                            ++ (subject
                                ++ (text " "
                                    ++ (operation ++ (text " " ++ (object ++ 10 ∷ [])))))))))))

unfoldable pub policy_change_rule : Text → Bool → Text → Text → Text → M Bool
policy_change_rule source allow subject operation object k =
    let t = loaded source k.policy in
    if leb policy_max_rules (length t.rules)
    then (do
      event_record_kind (text "policy") policy_name (effect_text allow) event_denied
          (event_current k) (text "deny:policy-full") (text "state")
      pure false)
        (record k { policy = t })
    else let t' = changed_table allow subject operation object t in
      let rule = stored_rule allow subject operation object (length t.rules + 1) in
      let decision =
        format_decision true (if allow then text "policy:allow" else text "policy:deny")
          (length t.rules + 1) t'.active_revision in
      (do
        register_capability_object rule (object_id policy_name k.registry)
        event_record_kind (text "policy") policy_name (effect_text allow) event_ok (event_current k)
            decision (text "state")
        object_update_state policy_name (if allow then text "allow-added" else text "deny-added")
        print (change_line allow subject operation object t')
        pure true)
        (record k { policy = t' })

unfoldable pub rule_relevant_to_object : PolicyRule → Text → Bool
rule_relevant_to_object rule object_name =
    text_equal object_name policy_name
    || text_equal rule.subject object_name
    || text_equal rule.object object_name
    || text_equal rule.object (text "*")

-- struct policy_decision
pub record PolicyDecision : Type 0 where
  pub allowed : Bool
  pub event : ℕ
  pub reason : Text

unfoldable pub rule_matches : Text → Text → Text → PolicyRule → Bool
rule_matches actor target operation rule =
    field_matches rule.subject actor
    && field_matches rule.operation operation
    && field_matches rule.object target

-- The loop of policy_check: each rule that matches overwrites the decision.
unfoldable pub decide : Text → Text → Text → ℕ → List PolicyRule → Bool × Text → Bool × Text
decide actor target operation revision [] d = d
decide actor target operation revision (rule ∷ rules) d =
    decide actor target operation revision rules (
      if rule_matches actor target operation rule
      then (rule.allow, format_decision rule.allow operation rule.rule_number revision)
      else d)

unfoldable pub policy_check : Text → Text → Text → Text → M PolicyDecision
policy_check source actor target operation k =
    let t = loaded source k.policy in
    let (allowed, reason) =
      decide actor target operation t.active_revision t.rules
        (false, format_decision false (text "policy-default") 0 t.active_revision) in
    (do
      event ←
          event_record_kind actor target (text "policy_check")
            (if allowed then event_ok else event_denied) (event_current k) reason (text "policy")
      pure (record { allowed = allowed; event = event; reason = reason }))
      (record k { policy = t })
