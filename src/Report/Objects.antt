-- ===== src/Report/Objects.antt =====
-- The reports of kernel/object.c: an object, what it leads to, and its history.
use glass_os.Prelude.{ℕ, ◌+◌, Option, none, some, List, [], ◌∷◌, text, ◌==◌, if◌then◌else◌}
use glass_os.Text.{Text, text_equal}
use glass_os.Kernel.{Object, M, ◌>>=◌, ◌>>◌}
use glass_os.Console.{str, num, printf}
use glass_os.Object.{object_find}
use glass_os.Policy.{policy_revision}
use glass_os.Report.Events.{event_print_history, event_print_transaction_name}
use glass_os.Report.Policies.{policy_print_capabilities_for_object}

unfoldable pub object_inspect : Text → Text → M (Unit {0})
object_inspect source query k = elim (object_find query k.registry) [
  | none ↦ printf (text "Object not found: %s\n") (str query ∷ []) k
  | some o ↦
      let (_, k1) =
        printf (text "object #%d %s %s\n") (num o.id ∷ str o.type ∷ str o.name ∷ []) k in
      let (_, k2) =
        printf (text "state=%s revision=%d parent=%d created_event=%d last_event=%d\n")
          (str o.state
            ∷ num o.revision
            ∷ num o.parent_id
            ∷ num o.created_event
            ∷ num o.last_event
            ∷ [])
          k1 in
      if text_equal o.type (text "policy")
      then policy_print_capabilities_for_object source o.name k2
      else if text_equal o.type (text "transaction")
      then event_print_transaction_name o.name k2
      else (tt, k2)
]

unfoldable pub print_object_summary : Object → M (Unit {0})
print_object_summary o =
    printf (text "  #%d %s %s state=%s revision=%d\n")
      (num o.id ∷ str o.type ∷ str o.name ∷ str o.state ∷ num o.revision ∷ [])

-- The first object with an id, as the loops over a parent look for it.
unfoldable pub find_parent : ℕ → List Object → Option Object
find_parent id [] = none
find_parent id (o ∷ os) = if o.id == id then some o else find_parent id os

unfoldable pub print_parent_expansion : Object → M (Unit {0})
print_parent_expansion o k =
    if o.parent_id == 0 then (tt, k) else elim (find_parent o.parent_id k.registry.objects) [
      | none ↦ (tt, k)
      | some p ↦ printf (text "  parent -> expand %s requires policy expand\n") (str p.name ∷ []) k
    ]

-- A loop over the objects that have the parent `id`: `body` for each of them, counted.
unfoldable pub each_child : (Object → M (Unit {0})) → ℕ → List Object → ℕ → M ℕ
each_child body id [] children k = (children, k)
each_child body id (o ∷ os) children k =
    let hit = o.parent_id == id in
    each_child body id os (if hit then children + 1 else children) (if hit then (body o k).1 else k)

unfoldable pub child_expansion : Object → M (Unit {0})
child_expansion o = printf (text "  child -> expand %s requires policy expand\n") (str o.name ∷ [])

unfoldable pub print_next_expansions : Object → M (Unit {0})
print_next_expansions o k =
    let (_, k1) = printf (text "available next expansions:\n") [] k in
    let (_, k2) =
      printf (text "  self -> inspect %s requires policy inspect\n") (str o.name ∷ []) k1 in
    let (_, k3) = print_parent_expansion o k2 in
    let (children, k4) = each_child child_expansion o.id k3.registry.objects 0 k3 in
    let (_, k5) = if children == 0 then printf (text "  children -> none\n") [] k4 else (tt, k4) in
    (do
      printf (text "  history -> history %s requires policy history\n") (str o.name ∷ [])
      printf (text "  cause -> why %d requires policy why\n") (num o.last_event ∷ [])
      printf (text "  policy -> inspect policy/base.policy requires policy inspect\n") [])
      k5

-- The branches of print_available_mutations.
unfoldable pub print_mutations : Object → M (Unit {0})
print_mutations o k =
    if text_equal o.type (text "file")
    then printf (text "  cat %s requires policy filesystem:read\n") (str o.name ∷ []) k
    else if text_equal o.type (text "module")
    then printf (text "  run %s requires policy module:load\n") (str o.name ∷ []) k
    else if text_equal o.name (text "ramfs")
    then printf (text "  ls requires policy filesystem:list\n") [] k
    else if text_equal o.name (text "memory")
    then printf (text "  meminfo requires policy memory:inspect\n") [] k
    else if text_equal o.type (text "config_key")
    then (do
      printf (text "  get %s requires policy config:get\n") (str o.name ∷ [])
      printf (text "  set %s <value> requires policy config:set\n") (str o.name ∷ []))
        k
    else printf (text "  none\n") [] k

unfoldable pub print_available_mutations : Text → Object → M (Unit {0})
print_available_mutations source o = do
  printf (text "available mutations:\n") []
  print_mutations o
  revision ← policy_revision source
  printf (text "policy revision=%d\n") (num revision ∷ [])

unfoldable pub object_history : Text → M (Unit {0})
object_history query k = elim (object_find query k.registry) [
  | none ↦ event_print_history query k
  | some o ↦ event_print_history o.name k
]

unfoldable pub child_history : Object → M (Unit {0})
child_history o = do
  printf (text "child history %s:\n") (str o.name ∷ [])
  event_print_history o.name

-- The `parent:` part of object_expand.
unfoldable pub print_parent : Object → M (Unit {0})
print_parent o k =
    if o.parent_id == 0
    then (tt, k)
    else let (_, k1) = printf (text "parent:\n") [] k in
      elim (find_parent o.parent_id k1.registry.objects) [
        | none ↦ (tt, k1)
        | some p ↦ print_object_summary p k1
      ]

-- object_expand once the object is found. Printing changes no object, so that `object->` reads what
-- it read at the start.
unfoldable pub expand_object : Text → Text → Object → M (Unit {0})
expand_object source query o k =
    let (_, k1) = object_inspect source query k in
    let (_, k2) = print_parent o k1 in
    let (_, k3) = printf (text "children:\n") [] k2 in
    let (children, k4) = each_child print_object_summary o.id k3.registry.objects 0 k3 in
    let (_, k5) = if children == 0 then printf (text "  none\n") [] k4 else (tt, k4) in
    let (_, k6) = print_next_expansions o k5 in
    let (_, k7) = print_available_mutations source o k6 in
    let (_, k8) = policy_print_capabilities_for_object source o.name k7 in
    let (_, k9) = printf (text "causal history:\n") [] k8 in
    let (_, k10) = object_history o.name k9 in
    let (_, k11) = each_child child_history o.id k10.registry.objects 0 k10 in (tt, k11)

unfoldable pub object_expand : Text → Text → M (Unit {0})
object_expand source query k = elim (object_find query k.registry) [
  | none ↦ printf (text "Object not found: %s\n") (str query ∷ []) k
  | some o ↦ expand_object source query o k
]
