-- ===== src/Report/Inspect.antt =====
-- The reports of kernel/object.c and kernel/policy.c as operations that print.
use glass_os.Prelude.{
  ℕ, ap, ◌∙◌, inl, inr, Option-cases, none, some, List, [], ◌∷◌, ◌==◌, text, if◌then◌else◌,
}
use glass_os.Text.{Text, text_equal}
use glass_os.Kernel.{Kernel, Object, M, PolicyRule}
use glass_os.Console.{printf, str}
use glass_os.Console.Output.{
  printing, HasPolicy, Prints, Prints-refl, Prints-trans, policy-Prints, printf-Prints, if-Prints,
  if_state-Prints,
}
use glass_os.Object.{object_find}
use glass_os.Policy.{policy_revision, rule_relevant_to_object}
use glass_os.Policy.Decide.{loaded-ready}
use glass_os.Report.Shows.{event_print_history-Prints, event_print_transaction_name-Prints}
use glass_os.Report.Events.{event_print_transaction_name}
use glass_os.Report.Policies.{
  show_rules, policy_show, show_capabilities, policy_print_capabilities_for_object,
}
use glass_os.Report.Objects.{
  object_inspect, print_object_summary, find_parent, print_parent_expansion, each_child,
  child_expansion, print_next_expansions, print_mutations, print_available_mutations,
  object_history, child_history, print_parent, expand_object, object_expand,
}

show_rules-Prints : (rules : List PolicyRule) (k : Kernel) → Prints k (show_rules rules k).1
unfolding show_rules
show_rules-Prints [] k = Prints-refl k
show_rules-Prints (rule ∷ rules) k = Prints-trans (printf-Prints _ _ k) (show_rules-Prints rules _)

show_capabilities-Prints :
    (name : Text) (revision : ℕ) (rules : List PolicyRule) (shown : ℕ) (k : Kernel)
    → Prints k (show_capabilities name revision rules shown k).1
unfolding show_capabilities
show_capabilities-Prints name revision [] shown k = Prints-refl k
show_capabilities-Prints name revision (rule ∷ rules) shown k =
    Prints-trans
      (if_state-Prints (rule_relevant_to_object rule name) _ _ (printf-Prints _ _ k)
        (Prints-refl k))
      (show_capabilities-Prints name revision rules _ _)

print_object_summary-Prints : (o : Object) (k : Kernel) → Prints k (print_object_summary o k).1
unfolding print_object_summary
print_object_summary-Prints o k = printf-Prints _ _ k

print_parent_expansion-Prints : (o : Object) (k : Kernel) → Prints k (print_parent_expansion o k).1
unfolding print_parent_expansion
print_parent_expansion-Prints o k = if-Prints _ _ _ (Prints-refl k) parent
  where
    parent : Prints k (
        (elim (find_parent o.parent_id k.registry.objects) as (λ x. Unit {0} × Kernel) [
          | none ↦ (tt, k)
          | some p ↦
              printf (text "  parent -> expand %s requires policy expand\n") (str p.name ∷ []) k
        ]).1)
    parent = elim (Option-cases (find_parent o.parent_id k.registry.objects)) [
      | inl e ↦ rw e (Prints-refl k)
      | inr (p, e) ↦ rw e (printf-Prints _ _ k)
    ]

each_child-Prints :
    (body : Object → M (Unit {0})) (id : ℕ) (os : List Object) (n : ℕ) (k : Kernel)
    → ((o : Object) (s : Kernel) → Prints s (body o s).1)
    → Prints k (each_child body id os n k).1
unfolding each_child
each_child-Prints body id [] n k h = Prints-refl k
each_child-Prints body id (o ∷ os) n k h =
    Prints-trans (if_state-Prints (o.parent_id == id) _ _ (h o k) (Prints-refl k))
      (each_child-Prints body id os _ _ h)

pub object_history-Prints : (query : Text) (k : Kernel) → Prints k (object_history query k).1
unfolding object_history
object_history-Prints query k = elim (Option-cases (object_find query k.registry)) [
  | inl e ↦ rw (object_history, e) (event_print_history-Prints query k)
  | inr (o, e) ↦ rw (object_history, e) (event_print_history-Prints o.name k)
]

child_expansion-Prints : (o : Object) (k : Kernel) → Prints k (child_expansion o k).1
unfolding child_expansion
child_expansion-Prints o k = printf-Prints _ _ k

child_history-Prints : (o : Object) (k : Kernel) → Prints k (child_history o k).1
unfolding child_history
child_history-Prints o k = Prints-trans (printf-Prints _ _ k) (event_print_history-Prints o.name _)

print_next_expansions-Prints : (o : Object) (k : Kernel) → Prints k (print_next_expansions o k).1
unfolding print_next_expansions
print_next_expansions-Prints o k = Prints-trans (printf-Prints _ _ k) (
    Prints-trans (printf-Prints _ _ _) (
      Prints-trans (print_parent_expansion-Prints o _) (
        Prints-trans (each_child-Prints child_expansion o.id _ 0 _ child_expansion-Prints) (
          Prints-trans (if-Prints _ _ _ (printf-Prints _ _ _) (Prints-refl _)) (
            Prints-trans (printf-Prints _ _ _)
              (Prints-trans (printf-Prints _ _ _) (printf-Prints _ _ _)))))))

print_mutations-Prints : (o : Object) (k : Kernel) → Prints k (print_mutations o k).1
unfolding print_mutations
print_mutations-Prints o k = search printing depth 20

print_parent-Prints : (o : Object) (k : Kernel) → Prints k (print_parent o k).1
unfolding print_parent
print_parent-Prints o k = if-Prints _ _ _ (Prints-refl k) parent
  where
    heading : Kernel
    heading = (printf (text "parent:\n") [] k).1

    parent : Prints k (
        (elim (find_parent o.parent_id heading.registry.objects) as (λ x. Unit {0} × Kernel) [
          | none ↦ (tt, heading)
          | some p ↦ print_object_summary p heading
        ]).1)
    parent = elim (Option-cases (find_parent o.parent_id heading.registry.objects)) [
      | inl e ↦ rw e (printf-Prints _ _ k)
      | inr (p, e) ↦
          rw e (Prints-trans (printf-Prints _ _ k) (print_object_summary-Prints p heading))
    ]

pub HasPolicy-Prints : {k k' : Kernel} → Prints k k' → HasPolicy k → HasPolicy k'
HasPolicy-Prints p h = ap (λ t. t.policy_loaded) (policy-Prints p) ∙ h

module _ (source : Text) where
  pub policy_show-Prints : (k : Kernel) → HasPolicy k → Prints k (policy_show source k).1
  unfolding policy_show
  policy_show-Prints k h =
      rw (loaded-ready source k.policy h)
        (Prints-trans (printf-Prints _ _ k) (show_rules-Prints _ _))

  capabilities-Prints :
      (name : Text) (k : Kernel)
      → HasPolicy k
      → Prints k (policy_print_capabilities_for_object source name k).1
  unfolding policy_print_capabilities_for_object
  capabilities-Prints name k h = rw (loaded-ready source k.policy h) (
      Prints-trans (printf-Prints _ _ k) (
        Prints-trans (show_capabilities-Prints name _ _ 0 _)
          (if-Prints _ _ _ (printf-Prints _ _ _) (Prints-refl _))))

  revision-Prints : (k : Kernel) → HasPolicy k → Prints k (policy_revision source k).1
  unfolding policy_revision
  revision-Prints k h = rw (loaded-ready source k.policy h) (Prints-refl k)

  mutations-Prints :
      (o : Object) (k : Kernel) → HasPolicy k → Prints k (print_available_mutations source o k).1
  unfolding print_available_mutations
  mutations-Prints o k h =
      let first =
        Prints-trans (printf-Prints (text "available mutations:\n") [] k)
          (print_mutations-Prints o _) in
      Prints-trans first
        (Prints-trans (revision-Prints _ (HasPolicy-Prints first h)) (printf-Prints _ _ _))

  found-Prints :
      (o : Object) (k s : Kernel)
      → Prints k s
      → HasPolicy k
      → Prints k
          (if text_equal o.type (text "policy")
            then policy_print_capabilities_for_object source o.name s
            else if text_equal o.type (text "transaction")
            then event_print_transaction_name o.name s
            else (tt, s)).1
  found-Prints o k s p h = Prints-trans p (
      if-Prints _ _ _ (capabilities-Prints o.name s (HasPolicy-Prints p h))
        (if-Prints _ _ _ (event_print_transaction_name-Prints o.name s) (Prints-refl s)))

  -- object_inspect, with a policy loaded: it prints, on the screen and to the two ports, and changes
  -- nothing else.
  pub object_inspect-Prints :
      (query : Text) (k : Kernel) → HasPolicy k → Prints k (object_inspect source query k).1
  unfolding object_inspect
  object_inspect-Prints query k h = elim (Option-cases (object_find query k.registry)) [
    | inl e ↦ rw (object_inspect, e) (printf-Prints _ _ k)
    | inr (o, e) ↦
        rw (object_inspect, e)
          (found-Prints o k _ (Prints-trans (printf-Prints _ _ k) (printf-Prints _ _ _)) h)
  ]

  expand_object-Prints :
      (query : Text) (o : Object) (k : Kernel)
      → HasPolicy k
      → Prints k (expand_object source query o k).1
  unfolding expand_object
  expand_object-Prints query o k h =
      let p3 =
        Prints-trans (object_inspect-Prints query k h)
          (Prints-trans (print_parent-Prints o _) (printf-Prints (text "children:\n") [] _)) in
      let p6 = Prints-trans p3 (
        Prints-trans (each_child-Prints print_object_summary o.id _ 0 _ print_object_summary-Prints)
          (Prints-trans
            (if-Prints _ (printf (text "  none\n") [] _) _ (printf-Prints _ _ _) (Prints-refl _))
            (print_next_expansions-Prints o _))) in
      let p7 = Prints-trans p6 (mutations-Prints o _ (HasPolicy-Prints p6 h)) in
      let p8 = Prints-trans p7 (capabilities-Prints o.name _ (HasPolicy-Prints p7 h)) in
      Prints-trans p8 (
        Prints-trans (printf-Prints _ _ _) (
          Prints-trans (object_history-Prints o.name _)
            (each_child-Prints child_history o.id _ 0 _ child_history-Prints)))

  -- object_expand, with a policy loaded, with all that it calls: it prints, on the screen and to the two
  -- ports, and changes nothing else, neither the registry, the journal nor the policy.
  pub object_expand-Prints :
      (query : Text) (k : Kernel) → HasPolicy k → Prints k (object_expand source query k).1
  unfolding object_expand
  object_expand-Prints query k h = elim (Option-cases (object_find query k.registry)) [
    | inl e ↦ rw (object_expand, e) (printf-Prints _ _ k)
    | inr (o, e) ↦ rw (object_expand, e) (expand_object-Prints query o k h)
  ]
