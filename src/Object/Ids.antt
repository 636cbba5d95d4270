-- ===== src/Object/Ids.antt =====
-- Object ids of the registry: 1, 2, 3, ... in the order of registration.
use glass_os.Prelude.{
  ℕ, zero, suc, ◌+◌, ◌≤◌, ◌≡◌, refl, some, List, [], ◌∷◌, ◌++◌, length, length-append, get_elem?,
  arith,
}
use glass_os.Text.{Text, parse_id}
use glass_os.Kernel.{Object, Registry}
use glass_os.Object.{
  object_capacity, new_object, object_register, update_from, update_object, object_set_state_direct,
  object_registry_init,
}

-- The ids of a stretch of the array are consecutive.
abbrev pub Numbered : ℕ → List Object → Type 0
Numbered n [] = Unit {0}
Numbered n (o ∷ os) = (o.id ≡ n) × Numbered (n + 1) os

pub record IsValid (r : Registry) : Type 0 where
  pub fits : length r.objects ≤ object_capacity
  pub next : r.next_id ≡ length r.objects + 1
  pub numbered : Numbered 1 r.objects

Numbered-append :
    (n : ℕ) (os : List Object) (o : Object)
    → Numbered n os
    → o.id ≡ n + length os
    → Numbered n (os ++ o ∷ [])
Numbered-append n [] o h e = omega arith
Numbered-append n (x ∷ os) o h e = (h.0, Numbered-append (n + 1) os o h.1 (omega arith))

-- object_register keeps a registry valid: the table within its 128 entries, the ids consecutive,
-- and `next_id` one above the number of objects.
pub object_register-IsValid :
    (type name : Text) (parent : ℕ) (state : Text) (event : ℕ) (r : Registry)
    → IsValid r
    → IsValid (object_register type name parent state event r).1
unfolding object_register
object_register-IsValid type name parent state event r v = ground (
  arith,
  Numbered-append 1 r.objects (new_object type name parent state event r.next_id),
  length-append r.objects (new_object type name parent state event r.next_id ∷ []),
)

update_from-Numbered :
    (n id : ℕ) (q : Text) (f : Object → Object) (os : List Object)
    → ((o : Object) → (f o).id ≡ o.id)
    → Numbered n os
    → Numbered n (update_from id q f os)
unfolding update_from
update_from-Numbered n id q f [] keep h = h
update_from-Numbered n id q f (o ∷ os) keep h =
    ground (arith, keep o, update_from-Numbered (n + 1) id q f os keep)

length-update_from :
    (id : ℕ) (q : Text) (f : Object → Object) (os : List Object)
    → length (update_from id q f os) ≡ length os
unfolding update_from
length-update_from id q f [] = refl
length-update_from id q f (o ∷ os) = ground (arith, length-update_from id q f os)

pub update_object-IsValid :
    (q : Text) (f : Object → Object) (r : Registry)
    → ((o : Object) → (f o).id ≡ o.id)
    → IsValid r
    → IsValid (update_object q f r)
unfolding update_object
update_object-IsValid q f r keep v = record {
  fits = omega (arith, length-update_from (parse_id q) q f r.objects);
  next = omega (arith, length-update_from (parse_id q) q f r.objects);
  numbered = update_from-Numbered 1 (parse_id q) q f r.objects keep v.numbered;
}

pub object_set_state_direct-IsValid :
    (name state : Text) (event : ℕ) (r : Registry)
    → IsValid r
    → IsValid (object_set_state_direct name state event r)
unfolding object_set_state_direct
object_set_state_direct-IsValid name state event r = update_object-IsValid name _ r (λ o. refl)

empty-IsValid : IsValid (record { objects = []; next_id = 1 })
empty-IsValid = omega arith

-- object_registry_init leaves a valid registry.
pub object_registry_init-IsValid : (event : ℕ) → IsValid (object_registry_init event)
unfolding object_registry_init
object_registry_init-IsValid event = keep _ _ _ _ (
    keep _ _ _ _
      (keep _ _ _ _ (keep _ _ _ _ (keep _ _ _ _ (keep _ _ _ _ (keep _ _ _ _ empty-IsValid))))))
  where
    keep :
        (type name : Text) (parent : ℕ) (state : Text) {r : Registry}
        → IsValid r
        → IsValid (object_register type name parent state event r).1
    keep type name parent state {r} = object_register-IsValid type name parent state event r

-- In a valid registry the object at index `i` is the one with id `i + 1`.
nth-Numbered :
    (n i : ℕ) (os : List Object) (o : Object)
    → Numbered n os
    → get_elem? os i ≡ some o
    → o.id ≡ n + i
nth-Numbered n i [] o h e = cc
nth-Numbered n zero (x ∷ os) o h e = ground arith
nth-Numbered n (suc i) (x ∷ os) o h e = omega (arith, nth-Numbered (n + 1) i os o h.1 e)
