-- ===== src/Config/Access.antt =====
-- config_get after config_set (kernel/config.c).
use glass_os.Prelude.{
  ◌≡◌, ◌≢◌, refl, sym, ap, ◌∙◌, ◌⊎◌, inl, inr, true, false, Option, none, some, Option-cases,
  Bool-cases, List, [], ◌∷◌, map,
}
use glass_os.Text.{Text, text_equal, copy_field}
use glass_os.Text.Equal.{text_equal-eq}
use glass_os.Kernel.{Kernel, ConfigEntry}
use glass_os.Event.Frame.{config-event_record_kind, config-object_update_state}
use glass_os.Config.{find_entry, write_entry, config_get, config_set, config_value_size}

pub keys-write_entry :
    (key value : Text) (es : List ConfigEntry)
    → map (λ e. e.key) (write_entry key value es) ≡ map (λ e. e.key) es
unfolding write_entry
keys-write_entry key value [] = refl
keys-write_entry key value (e ∷ es) = elim (Bool-cases (text_equal e.key key)) [
  | inl h ↦ rw h refl
  | inr h ↦ rw h (ap (λ ks. e.key ∷ ks) (keys-write_entry key value es))
]

abbrev value_of : Option ConfigEntry → Option Text
value_of none = none
value_of (some e) = some e.value

find-write_self :
    (key value : Text) (es : List ConfigEntry) {e : ConfigEntry}
    → find_entry key es ≡ some e
    → value_of (find_entry key (write_entry key value es)) ≡ some value
unfolding find_entry write_entry
find-write_self key value [] h = cc
find-write_self key value (x ∷ es) {e} h = elim (Bool-cases (text_equal x.key key)) [
  | inl same ↦ rw (same, same) refl
  | inr other ↦ rw (other, other) (find-write_self key value es {e = e} (rw other at h))
]

find-write_other :
    (key value other : Text) (es : List ConfigEntry)
    → other ≢ key
    → value_of (find_entry other (write_entry key value es)) ≡ value_of (find_entry other es)
unfolding find_entry write_entry
find-write_other key value other [] ne = refl
find-write_other key value other (x ∷ es) ne = elim (Bool-cases (text_equal x.key key)) [
  | inl same ↦
      let differs : text_equal x.key other ≡ false = elim (Bool-cases (text_equal x.key other)) [
        | inl e ↦ absurd (ne (sym (text_equal-eq x.key other e) ∙ text_equal-eq x.key key same))
        | inr e ↦ e
      ] in
      rw (same, differs) refl
  | inr unlike ↦ elim (Bool-cases (text_equal x.key other)) [
    | inl e ↦ rw (unlike, e) refl
    | inr e ↦ rw (unlike, e) (find-write_other key value other es ne)
  ]
]

config_get-value_of :
    (key : Text) (es : List ConfigEntry) → config_get key es ≡ value_of (find_entry key es)
unfolding config_get
config_get-value_of key es = elim (Option-cases (find_entry key es)) [
  | inl e ↦ rw (config_get, e) refl
  | inr (x, e) ↦ rw (config_get, e) refl
]

pub get-write_other :
    (key value other : Text) (es : List ConfigEntry)
    → other ≢ key
    → config_get other (write_entry key value es) ≡ config_get other es
get-write_other key value other es ne =
    rw (config_get-value_of, config_get-value_of) (find-write_other key value other es ne)

module _ (key value : Text) (k : Kernel) where
  set_unknown :
      find_entry key k.config ≡ none
      → ((config_set key value k).0 ≡ false) × ((config_set key value k).1.config ≡ k.config)
  unfolding config_set
  set_unknown h = rw (config_set, h) (refl, rw config-event_record_kind)

  set_known :
      {e : ConfigEntry}
      → find_entry key k.config ≡ some e
      → ((config_set key value k).0 ≡ true)
        × ((config_set key value k).1.config
            ≡ write_entry key (copy_field config_value_size value) k.config)
  unfolding config_set
  set_known h = rw (config_set, h) (refl, rw config-object_update_state)

  -- config_set of a key without an entry fails and changes no entry. For a key that has one it
  -- succeeds; config_get of that key then gives the value, cut to 47 bytes, config_get of every other
  -- key gives what it gave before, and the keys are the same.
  pub config_set_lem :
      let (done, k') = config_set key value k in
      ((config_get key k.config ≡ none) × (done ≡ false) × (k'.config ≡ k.config))
      ⊎ ((config_get key k.config ≢ none)
          × (done ≡ true)
          × (config_get key k'.config ≡ some (copy_field config_value_size value))
          × ((other : Text) → other ≢ key → config_get other k'.config ≡ config_get other k.config)
          × (map (λ e. e.key) k'.config ≡ map (λ e. e.key) k.config))
  config_set_lem = elim (Option-cases (find_entry key k.config)) [
    | inl h ↦ inl (rw (config_get-value_of, h) refl, (set_unknown h).0, (set_unknown h).1)
    | inr (e, h) ↦
        let done = set_known {e = e} h in
        inr (
          rw (config_get-value_of, h) (λ bad. cc),
          done.0,
          rw (done.1, config_get-value_of)
              (find-write_self key (copy_field config_value_size value) k.config {e = e} h),
          λ other ne.
              rw (done.1, config_get-value_of, config_get-value_of)
                (find-write_other key (copy_field config_value_size value) other k.config ne),
          rw done.1 (keys-write_entry key (copy_field config_value_size value) k.config),
        )
  ]
