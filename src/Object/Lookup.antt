-- ===== src/Object/Lookup.antt =====
-- What object_find returns after the registry was written to.
use glass_os.Prelude.{
  ℕ, ◌≤◌, ◌<◌, ◌≡◌, refl, inl, inr, none, some, List, [], ◌∷◌, ◌++◌, length, arith, lt→leb-false,
  Option-cases,
}
use mathlib.Core.Option
use glass_os.Text.{Text, copy_field, parse_id}
use glass_os.Text.Equal.{text_equal_refl}
use glass_os.Text.Append.{take_all}
use glass_os.Kernel.{Object, Registry, next32, next64}
use glass_os.Object.{
  object_capacity, matches, find_from, object_find, object_id, new_object, object_register,
  update_from, update_object, object_set_state_direct, revise, stamp,
}

find_from-append_some :
    (id : ℕ) (q : Text) (os : List Object) (o x : Object)
    → find_from id q os ≡ some o
    → find_from id q (os ++ x ∷ []) ≡ some o
unfolding find_from
find_from-append_some id q [] o x h = cc
find_from-append_some id q (y ∷ os) o x h = ground (arith, find_from-append_some id q os o x)

find_from-append_none :
    (id : ℕ) (q : Text) (os : List Object) (x : Object)
    → find_from id q os ≡ none
    → find_from id q (os ++ x ∷ []) ≡ find_from id q (x ∷ [])
unfolding find_from
find_from-append_none id q [] x h = refl
find_from-append_none id q (y ∷ os) x h = ground (arith, find_from-append_none id q os x)

-- Registering an object never changes what a successful lookup returns.
pub find-register :
    (type name : Text) (parent : ℕ) (state : Text) (event : ℕ) (r : Registry) (q : Text)
    {o : Object}
    → object_find q r ≡ some o
    → object_find q (object_register type name parent state event r).1 ≡ some o
unfolding object_register object_find
find-register type name parent state event r q {o} h = ground (
  arith,
  find_from-append_some (parse_id q) q r.objects o
      (new_object type name parent state event r.next_id),
)

module _ (type name : Text) (parent : ℕ) (state : Text) (event : ℕ) (r : Registry) where
  abbrev fresh : Object
  fresh = new_object type name parent state event r.next_id

  pub object_register-some :
      {o : Object}
      → length r.objects < object_capacity
      → object_find name r ≡ some o
      → object_register type name parent state event r ≡ (o.id, r)
  unfolding object_register
  object_register-some room known = rw (lt→leb-false _ _ room, known)

  pub object_register-none :
      length r.objects < object_capacity
      → object_find name r ≡ none
      → object_register type name parent state event r
        ≡ (r.next_id, record { objects = r.objects ++ fresh ∷ []; next_id = next32 r.next_id })
  unfolding object_register
  object_register-none room unknown = rw (lt→leb-false _ _ room, unknown)

  find-fresh :
      length name ≤ 47
      → object_find name r ≡ none
      → object_find name (record { objects = r.objects ++ fresh ∷ []; next_id = next32 r.next_id })
        ≡ some fresh
  unfolding object_find find_from matches copy_field
  find-fresh short unknown = ground (
    arith,
    find_from-append_none (parse_id name) name r.objects fresh,
    take_all 47 name short,
    text_equal_refl name,
  )

  -- A name that fits the 48-byte field is found under the id that object_register returned, unless
  -- the table was full.
  pub find-register_self :
      length name ≤ 47
      → length r.objects < object_capacity
      → let (id, r') = object_register type name parent state event r in object_id name r' ≡ id
  unfolding object_id
  find-register_self short room = elim (Option-cases (object_find name r)) [
    | inl unknown ↦ rw (object_register-none room unknown, object_id, find-fresh short unknown)
    | inr (o, known) ↦ rw (object_register-some room known, object_id, known)
  ]

-- The fields that lookups go by.
abbrev pub KeepsKey : (Object → Object) → Type 0
KeepsKey f = (o : Object) → ((f o).id ≡ o.id) × ((f o).name ≡ o.name)

matches-KeepsKey :
    (id : ℕ) (q : Text) (f : Object → Object) (o : Object)
    → ((f o).id ≡ o.id) × ((f o).name ≡ o.name)
    → matches id q (f o) ≡ matches id q o
unfolding matches
matches-KeepsKey id q f o (e, n) = rw (e, n)

-- A write through the pointer that a lookup returned is what the next such lookup reads.
find-update_from :
    (id : ℕ) (q : Text) (f : Object → Object) (os : List Object)
    → KeepsKey f
    → find_from id q (update_from id q f os) ≡ Option.map f (find_from id q os)
unfolding find_from update_from
find-update_from id q f [] keep = refl
find-update_from id q f (o ∷ os) keep =
    ground (arith, keep o, matches-KeepsKey id q f o (keep o), find-update_from id q f os keep)

pub find-update_object :
    (q : Text) (f : Object → Object) (r : Registry)
    → KeepsKey f
    → object_find q (update_object q f r) ≡ Option.map f (object_find q r)
unfolding object_find update_object
find-update_object q f r = find-update_from (parse_id q) q f r.objects

-- Whatever the query, a write that keeps ids and names keeps the id that is found.
id-update_from :
    (id id' : ℕ) (q q' : Text) (f : Object → Object) (os : List Object)
    → KeepsKey f
    → Option.map (λ o. o.id) (find_from id' q' (update_from id q f os))
      ≡ Option.map (λ o. o.id) (find_from id' q' os)
unfolding find_from update_from
id-update_from id id' q q' f [] keep = refl
id-update_from id id' q q' f (o ∷ os) keep =
    ground
      (arith, keep o, matches-KeepsKey id' q' f o (keep o), id-update_from id id' q q' f os keep)

pub object_id-update_object :
    (q q' : Text) (f : Object → Object) (r : Registry)
    → KeepsKey f
    → object_id q' (update_object q f r) ≡ object_id q' r
unfolding object_id update_object
object_id-update_object q q' f r keep =
    ground (arith, id-update_from (parse_id q) (parse_id q') q q' f r.objects keep)

-- object_set_state_direct on a known object sets its state and its last event, and makes its
-- revision one higher (mod 2^64); its id and its name stay, and so does every lookup's id.
pub object_set_state_direct_lem :
    (name state : Text) (event : ℕ) (r : Registry) (o : Object)
    → object_find name r ≡ some o
    → let r' = object_set_state_direct name state event r in
      (object_find name r'
        ≡ some (record o {
          state = copy_field 48 state;
          revision = next64 o.revision;
          last_event = event;
        }))
      × ((q : Text) → object_id q r' ≡ object_id q r)
unfolding object_set_state_direct
object_set_state_direct_lem name state event r o h = (
  rw (find-update_object name (λ x. stamp event (revise state x)) r (λ x. (refl, refl)), h),
  λ q. object_id-update_object name q _ r (λ x. (refl, refl)),
)
