-- ===== src/Object.antt =====
-- The object registry (kernel/object.c). `object_count` is the length of `objects`.
pub mod Ids
pub mod Lookup
use glass_os.Prelude.{
  ℕ, ◌+◌, Bool, true, false, not, ◌&&◌, ◌||◌, Option, none, some, List, [], ◌∷◌, ◌++◌, length, text,
  leb, ◌==◌, if◌then◌else◌,
}
use glass_os.Text.{Text, text_equal, copy_field, parse_id}
use glass_os.Kernel.{Object, Registry, next32, next64}

abbrev pub object_capacity : ℕ
object_capacity = 128

-- The test of the loop of object_find.
unfoldable pub matches : ℕ → Text → Object → Bool
matches id query o = (not (id == 0) && o.id == id) || text_equal o.name query

-- The loop of object_find, from `objects[i]` on.
unfoldable pub find_from : ℕ → Text → List Object → Option Object
find_from id query [] = none
find_from id query (o ∷ os) = if matches id query o then some o else find_from id query os

unfoldable pub object_find : Text → Registry → Option Object
unfolding find_from
object_find query r = find_from (parse_id query) query r.objects

unfoldable pub object_id : Text → Registry → ℕ
unfolding object_find
object_id query r = elim (object_find query r) [ none ↦ 0 | some o ↦ o.id ]

unfoldable pub object_revision : Text → Registry → ℕ
unfolding object_find
object_revision query r = elim (object_find query r) [ none ↦ 0 | some o ↦ o.revision ]

abbrev pub new_object : Text → Text → ℕ → Text → ℕ → ℕ → Object
new_object type name parent_id state created_event id = record {
  id = id;
  parent_id = parent_id;
  revision = 1;
  created_event = created_event;
  last_event = created_event;
  type = copy_field 32 type;
  name = copy_field 48 name;
  state = copy_field 48 state;
}

-- The full table is tested before the lookup, so a full table refuses known names too.
unfoldable pub object_register : Text → Text → ℕ → Text → ℕ → Registry → ℕ × Registry
unfolding object_find
object_register type name parent_id state created_event r =
    if leb object_capacity (length r.objects) then (0, r) else elim (object_find name r) [
      | some existing ↦ (existing.id, r)
      | none ↦ (
        r.next_id,
        record r {
          objects = r.objects ++ new_object type name parent_id state created_event r.next_id ∷ [];
          next_id = next32 r.next_id;
        },
      )
    ]

-- A write through the pointer that object_find returns: the first match changes.
unfoldable pub update_from : ℕ → Text → (Object → Object) → List Object → List Object
update_from id query f [] = []
update_from id query f (o ∷ os) =
    if matches id query o then f o ∷ os else o ∷ update_from id query f os

unfoldable pub update_object : Text → (Object → Object) → Registry → Registry
unfolding update_from
update_object query f r = record r { objects = update_from (parse_id query) query f r.objects }

-- `copy_text(object->state, ...); object->revision++;`
abbrev pub revise : Text → Object → Object
revise state o = record o { state = copy_field 48 state; revision = next64 o.revision }

abbrev pub stamp : ℕ → Object → Object
stamp event o = record o { last_event = event }

-- An unknown name changes nothing.
unfoldable pub object_set_state_direct : Text → Text → ℕ → Registry → Registry
unfolding update_object
object_set_state_direct name state event r =
    update_object name (λ o. stamp event (revise state o)) r

-- object_registry_init: the objects that stand before any other.
unfoldable pub object_registry_init : ℕ → Registry
unfolding object_register
object_registry_init boot_event =
    let empty : Registry = record { objects = []; next_id = 1 } in
    let (system, r) =
      object_register (text "system") (text "system") 0 (text "booting") boot_event empty in
    let put : Text → Text → Text → Registry → Registry =
      λ type name state s. (object_register type name system state boot_event s).1 in
    put (text "ledger") (text "events") (text "recording") (
      put (text "subsystem") (text "shell") (text "pending") (
        put (text "subsystem") (text "ramfs") (text "pending") (
          put (text "subsystem") (text "interrupts") (text "pending") (
            put (text "subsystem") (text "memory") (text "initializing")
              (put (text "boot") (text "boot") (text "entered kernel") r)))))
