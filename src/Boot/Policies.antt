-- ===== src/Boot/Policies.antt =====
-- policy_init of kernel/policy.c as a stage of the boot.
use glass_os.Prelude.{ℕ, suc, ◌+◌, ◌≡◌, refl, ap, ◌∙◌, List, [], ◌∷◌, length, text, arith}
use glass_os.Text.{Text}
use glass_os.Kernel.{Kernel, PolicyRule}
use glass_os.Policy.{
  policy_parse, policy_init, register_capabilities, register_capability_object, policy_name,
}
use glass_os.Object.{object_register, object_id}
use glass_os.Event.{transaction_begin, event_set_current, event_set_transaction}
use glass_os.Policy.Change.{IsTable, Numbered}
use glass_os.Policy.Parse.{policy_parse-IsTable}
use glass_os.Quiet.Bounded.{IsBounded, IsBounded-same}
use glass_os.Quiet.{
  Quiet, Quiet-refl, register-Quiet, set_current-Quiet, set_transaction-Quiet,
  event_record_kind-Quiet, object_update_state-Quiet, transaction_begin-Quiet,
  transaction_commit-Quiet,
}

register_capabilities-Quiet :
    (rules : List PolicyRule) (policy_object : ℕ) {k s : Kernel}
    → Quiet k s
    → Quiet k (register_capabilities rules policy_object s).1
unfolding register_capabilities register_capability_object
register_capabilities-Quiet [] policy_object q = q
register_capabilities-Quiet (rule ∷ rules) policy_object q =
    register_capabilities-Quiet rules policy_object (register-Quiet q _ _ _ _ _)

-- The rules with their names are as many, with the same numbers.
register_capabilities-Numbered :
    (rules : List PolicyRule) (policy_object n : ℕ) (k : Kernel)
    → Numbered n rules
    → Numbered n (register_capabilities rules policy_object k).0
      × (length (register_capabilities rules policy_object k).0 ≡ length rules)
unfolding register_capabilities register_capability_object
register_capabilities-Numbered [] policy_object n k h = (tt, refl)
register_capabilities-Numbered (rule ∷ rules) policy_object n k (at, h) =
    let rest = register_capabilities-Numbered rules policy_object (n + 1) _ h in
    ((at, rest.0), ap suc rest.1)

module _ (source : Text) (boot_event : ℕ) (k : Kernel) where
  abbrev named : Kernel
  named = record k {
    registry =
        (object_register (text "policy") policy_name (object_id (text "system") k.registry)
          (text "loading") boot_event k.registry).1;
  }

  abbrev policy_object : ℕ
  policy_object =
      (object_register (text "policy") policy_name (object_id (text "system") k.registry)
        (text "loading") boot_event k.registry).0

  abbrev begun : ℕ × Kernel
  begun = transaction_begin (text "policy") policy_name boot_event named

  abbrev opened : Kernel
  opened = (event_set_transaction begun.0 (event_set_current begun.0 begun.1).1).1

  abbrev parsed : Kernel
  parsed = record opened { policy = policy_parse source }

  abbrev registered : List PolicyRule × Kernel
  registered = register_capabilities parsed.policy.rules policy_object parsed

  abbrev filled : Kernel
  filled = record registered.1 { policy = record registered.1.policy { rules = registered.0 } }

  opened-Quiet : Quiet k opened
  opened-Quiet =
      set_transaction-Quiet
        (set_current-Quiet
          (transaction_begin-Quiet (register-Quiet (Quiet-refl {k = k}) _ _ _ _ _) _ _ _) _)
        _

  registered-Quiet : Quiet parsed registered.1
  registered-Quiet = register_capabilities-Quiet parsed.policy.rules policy_object Quiet-refl

  filled-Quiet : Quiet filled (policy_init source boot_event k).1
  unfolding policy_init
  filled-Quiet =
      set_current-Quiet
        (set_transaction-Quiet
          (transaction_commit-Quiet
            (object_update_state-Quiet
              (event_record_kind-Quiet (Quiet-refl {k = filled}) _ _ _ _ _ _ _) _ _)
            _)
          0)
        boot_event

  pub policy_init-IsTable : IsTable (policy_init source boot_event k).1.policy
  policy_init-IsTable =
      let table = (policy_parse-IsTable source).0 in
      let rules =
        register_capabilities-Numbered parsed.policy.rules policy_object 1 parsed table.numbered in
      rw filled-Quiet.policy (record {
        ready = ap (λ t. t.policy_loaded) registered-Quiet.policy ∙ table.ready;
        fits = omega (arith, rules.1, table.fits);
        numbered = rules.0;
      })

  pub policy_init-config : (policy_init source boot_event k).1.config ≡ k.config
  policy_init-config = filled-Quiet.config ∙ registered-Quiet.config ∙ opened-Quiet.config

  pub policy_init-IsBounded : IsBounded k → IsBounded (policy_init source boot_event k).1
  policy_init-IsBounded b =
      let open_bounds = opened-Quiet.evolves.bounded b in
      let parsed_bounds = IsBounded-same {k' = parsed} (refl, refl, refl) open_bounds in
      let done = registered-Quiet.evolves.bounded parsed_bounds in
      filled-Quiet.evolves.bounded (IsBounded-same {k' = filled} (refl, refl, refl) done)
