-- ===== src/Shell/Changes.antt =====
-- The commands `set` and `policy` of kernel/main.c: what they change, and when.
use glass_os.Prelude.{
  ◌<◌, ◌≡◌, refl, sym, ap, ◌∙◌, ◌⊎◌, inl, inr, Bool, true, false, Option, none, some, Option-cases,
  Bool-cases, List, length, text, leb,
}
use glass_os.Text.{Text, copy_field}
use glass_os.Kernel.{Kernel, ConfigEntry, PolicyTable}
use glass_os.Console.Output.{HasPolicy, print-Prints}
use glass_os.Event.{event_current}
use glass_os.Policy.{
  PolicyDecision, policy_check, policy_change_rule, changed_table, register_capability_object,
  policy_max_rules,
}
use glass_os.Policy.Decide.{verdict, allowed-verdict, loaded-ready}
use glass_os.Config.{config_set, find_entry, write_entry, config_value_size}
use glass_os.Quiet.{
  leb_false→lt, Quiet, HasPolicy-Quiet, Prints-Quiet, printf-Quiet, event_record_kind-Quiet,
  set_current-Quiet, register-Quiet, object_update_state-Quiet,
}
use glass_os.Quiet.Bounded.{Evolves-alike}
use glass_os.Shell.Effects.{checked, denied-Quiet}
use glass_os.Shell.Commands.{shell, change_key, set_pair, change_policy}

abbrev pub with_config : List ConfigEntry → Kernel → Kernel
with_config es k = record k { config = es }

abbrev pub with_policy : PolicyTable → Kernel → Kernel
with_policy t k = record k { policy = t }

-- The store once a key was given a value.
abbrev pub stored : Text → Text → Kernel → List ConfigEntry
stored key value k = write_entry key (copy_field config_value_size value) k.config

stored-Quiet :
    (key value : Text) {k s : Kernel}
    → Quiet k s
    → Quiet (with_config (stored key value k) k) (with_config (stored key value s) s)
stored-Quiet key value q = record {
  policy = q.policy;
  config = ap (write_entry key (copy_field config_value_size value)) q.config;
  memory = q.memory;
  ticks = q.ticks;
  keyboard = q.keyboard;
  paging = q.paging;
  users = q.users;
  evolves = Evolves-alike (refl, refl, refl) (refl, refl, refl) q.evolves;
}

config_set-Quiet :
    (key value : Text) {k s : Kernel}
    → Quiet k s
    → (((config_set key value s).0 ≡ false) × Quiet k (config_set key value s).1)
      ⊎ (((config_set key value s).0 ≡ true)
          × Quiet (with_config (stored key value k) k) (config_set key value s).1)
unfolding config_set
config_set-Quiet key value {k} {s} q = elim (Option-cases (find_entry key s.config)) [
  | inl e ↦
      inl (rw (config_set, e) refl, rw (config_set, e) (event_record_kind-Quiet q _ _ _ _ _ _ _))
  | inr (entry, e) ↦ inr (
    rw (config_set, e) refl,
    rw (config_set, e) (object_update_state-Quiet (stored-Quiet key value q) _ _),
  )
]

-- The table is the same, or has the rule and then serves a request that the policy allowed.
change_key-Quiet :
    (key value : Text) (policy : PolicyDecision) {k s : Kernel}
    → Quiet k s
    → (((change_key key value policy s).0 ≡ false) × Quiet k (change_key key value policy s).1)
      ⊎ (((change_key key value policy s).0 ≡ true)
          × Quiet (with_config (stored key value k) k) (change_key key value policy s).1)
unfolding change_key
change_key-Quiet key value policy {k} {s} q =
    elim (config_set-Quiet key value (set_current-Quiet q policy.event)) [
      | inl (failed, same) ↦
          inl (
            rw failed refl,
            rw failed (printf-Quiet (set_current-Quiet same (event_current s)) _ _),
          )
      | inr (done, changed) ↦ inr (
        rw done refl,
        rw done (
            printf-Quiet
              (event_record_kind-Quiet (set_current-Quiet changed (event_current s)) _ _ _ _ _ _ _)
              _ _),
      )
    ]

-- The policy table once a rule was added.
abbrev pub ruled : Bool → Text → Text → Text → Kernel → PolicyTable
ruled allow subject operation object k = changed_table allow subject operation object k.policy

module _ (allow : Bool) (subject operation object : Text) where
  ruled-Quiet :
      {k s : Kernel}
      → Quiet k s
      → Quiet
          (with_policy (ruled allow subject operation object k) k)
          (with_policy (ruled allow subject operation object s) s)
  ruled-Quiet q = record {
    policy = ap (changed_table allow subject operation object) q.policy;
    config = q.config;
    memory = q.memory;
    ticks = q.ticks;
    keyboard = q.keyboard;
    paging = q.paging;
    users = q.users;
    evolves = Evolves-alike (refl, refl, refl) (refl, refl, refl) q.evolves;
  }

  ap-room :
      {k s : Kernel}
      → Quiet k s
      → leb policy_max_rules (length s.policy.rules) ≡ false
      → length k.policy.rules < policy_max_rules
  ap-room q room =
      leb_false→lt policy_max_rules _
        (sym (ap (λ t. leb policy_max_rules (length t.rules)) q.policy) ∙ room)

  policy_change_rule-Quiet :
      (source : Text) {k s : Kernel}
      → Quiet k s
      → HasPolicy k
      → (((policy_change_rule source allow subject operation object s).0 ≡ false)
          × Quiet k (policy_change_rule source allow subject operation object s).1)
        ⊎ (((policy_change_rule source allow subject operation object s).0 ≡ true)
            × (length k.policy.rules < policy_max_rules)
            × Quiet
                (with_policy (ruled allow subject operation object k) k)
                (policy_change_rule source allow subject operation object s).1)
  unfolding policy_change_rule register_capability_object
  policy_change_rule-Quiet source {k} {s} q ready =
      let loaded_table = loaded-ready source s.policy (HasPolicy-Quiet q ready) in
      elim (Bool-cases (leb policy_max_rules (length s.policy.rules))) [
        | inl full ↦ inl (
          rw (loaded_table, full) refl,
          rw (loaded_table, full) (event_record_kind-Quiet q _ _ _ _ _ _ _),
        )
        | inr room ↦ inr (
          rw (loaded_table, room) refl,
          ap-room q room,
          rw (loaded_table, room)
              (Prints-Quiet
                (object_update_state-Quiet
                  (event_record_kind-Quiet (register-Quiet (ruled-Quiet q) _ _ _ _ _) _ _ _ _ _ _ _)
                  _ _)
                (print-Prints _ _)),
        )
      ]

-- A change is made only where the table allows the shell to make it.
module _ (source : Text) {k s : Kernel} (q : Quiet k s) (ready : HasPolicy k) where
  pub decided :
      (target right : Text)
      → (policy_check source shell target right s).0.allowed ≡ verdict shell target right k.policy
  decided target right =
      allowed-verdict source shell target right s
      ∙ ap (verdict shell target right)
          (loaded-ready source s.policy (HasPolicy-Quiet q ready) ∙ q.policy)

  pub change_policy-Quiet :
      (allow : Bool) (subject operation object : Text)
      → Quiet k (change_policy source allow subject operation object s).1
        ⊎ ((verdict shell (text "policy/base.policy") (text "policy:change") k.policy ≡ true)
            × (length k.policy.rules < policy_max_rules)
            × Quiet
                (with_policy (ruled allow subject operation object k) k)
                (change_policy source allow subject operation object s).1)
  unfolding change_policy
  change_policy-Quiet allow subject operation object =
      let name = text "policy/base.policy" in
      let right = text "policy:change" in
      let d = checked q ready source name right in
      elim (Bool-cases (policy_check source shell name right s).0.allowed) [
        | inr no_right ↦ inl (rw no_right (denied-Quiet d _))
        | inl allowed ↦
            elim (policy_change_rule-Quiet allow subject operation object source
              (set_current-Quiet d (policy_check source shell name right s).0.event) ready) [
                | inl (failed, same) ↦ inl (rw allowed (set_current-Quiet same _))
                | inr (done, room, changed) ↦ inr (
                  sym (decided name right) ∙ allowed,
                  room,
                  rw allowed (set_current-Quiet changed _),
                )
              ]
      ]

  pub set_pair-Quiet :
      (key : Text) (value : Option Text)
      → Quiet k (set_pair source key value s).1
        ⊎ ((v : Text) × (value ≡ some v)
            × (verdict shell key (text "config:set") k.policy ≡ true)
            × Quiet (with_config (stored key v k) k) (set_pair source key value s).1)
  unfolding set_pair
  set_pair-Quiet key none = inl (printf-Quiet q _ _)
  set_pair-Quiet key (some v) =
      let right = text "config:set" in
      let d = checked q ready source key right in
      elim (Bool-cases (policy_check source shell key right s).0.allowed) [
        | inr no_right ↦ inl (rw no_right (denied-Quiet d _))
        | inl allowed ↦ elim (change_key-Quiet key v (policy_check source shell key right s).0 d) [
          | inl (failed, same) ↦ inl (rw allowed same)
          | inr (done, changed) ↦
              inr (v, refl, sym (decided key right) ∙ allowed, rw allowed changed)
        ]
      ]
