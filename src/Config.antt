-- ===== src/Config.antt =====
-- The configuration store (kernel/config.c): two keys with values of up to 47 bytes.
pub mod Access
use glass_os.Prelude.{Bool, true, false, ℕ, Option, none, some, List, [], ◌∷◌, text, if◌then◌else◌}
use glass_os.Text.{Text, text_equal, copy_field}
use glass_os.Kernel.{Kernel, ConfigEntry, M, event_ok, event_denied, ◌>>=◌, ◌>>◌, pure, modify}
use glass_os.Object.{object_id, object_register}
use glass_os.Event.{event_record, event_record_kind, event_current, object_update_state}

abbrev pub config_value_size : ℕ
config_value_size = 48

-- The initial `entries`.
abbrev pub default_entries : List ConfigEntry
default_entries =
    record { key = text "/config/theme"; value = text "light" }
    ∷ record { key = text "/config/prompt"; value = text ">" }
    ∷ []

unfoldable pub find_entry : Text → List ConfigEntry → Option ConfigEntry
find_entry key [] = none
find_entry key (e ∷ es) = if text_equal e.key key then some e else find_entry key es

-- A write through the pointer that find_entry returns.
unfoldable pub write_entry : Text → Text → List ConfigEntry → List ConfigEntry
write_entry key value [] = []
write_entry key value (e ∷ es) =
    if text_equal e.key key then record e { value = value } ∷ es else e ∷ write_entry key value es

-- The loop of config_init.
unfoldable pub register_entries : List ConfigEntry → ℕ → M (Unit {0})
register_entries [] parent k = (tt, k)
register_entries (e ∷ es) parent k =
    let (_, r) =
      object_register (text "config_key") e.key parent e.value (event_current k) k.registry in
    register_entries es parent (record k { registry = r })

unfoldable pub config_init : M Bool
config_init k =
    let (parent, r) =
      object_register (text "directory") (text "/config") (object_id (text "system") k.registry)
        (text "ready") (event_current k) k.registry in
    (do
      register_entries k.config parent
      event_record (text "config") (text "/config") (text "initialize") event_ok (event_current k)
          (text "allow:boot-config")
      pure true)
      (record k { registry = r })

-- The option is the null pointer.
unfoldable pub config_get : Text → List ConfigEntry → Option Text
config_get key es = elim (find_entry key es) [ none ↦ none | some e ↦ some e.value ]

unfoldable pub config_set : Text → Text → M Bool
config_set key value k = elim (find_entry key k.config) [
  | none ↦
      (do
        event_record_kind (text "config") key (text "set") event_denied (event_current k)
            (text "deny:unknown-config-key") (text "state")
        pure false)
        k
  | some e ↦
      (do
        modify (λ s. record s {
          config = write_entry key (copy_field config_value_size value) s.config;
        })
        object_update_state key (copy_field config_value_size value)
        pure true)
        k
]
