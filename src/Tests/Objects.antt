-- ===== src/Tests/Objects.antt =====
-- The registry.
use glass_os.Prelude.{◌≡◌, refl, some, text, arith, length, ◌≤◌}
use glass_os.Kernel.{Object}
use glass_os.Object.{object_find, object_id, object_set_state_direct, matches}
use glass_os.Object.Lookup.{object_set_state_direct_lem}
use glass_os.Text.{parse_id, text_equal, Text, copy_field}
use glass_os.Tests.Sample.{registry}

abbrev system : Object
system = record {
  id = 1;
  parent_id = 0;
  revision = 1;
  created_event = 1;
  last_event = 1;
  type = text "system";
  name = text "system";
  state = text "booting";
}

found_system : object_find (text "system") registry ≡ some system
unfolding object_find matches parse_id text_equal text
found_system = refl

found_by_id : object_find (text "1") registry ≡ some system
unfolding object_find matches parse_id text_equal text
found_by_id = refl

shell_fits : length (text "shell") ≤ 47
unfolding text
shell_fits = omega arith

object_set_state_direct_lem_example :
    let r' = object_set_state_direct (text "system") (text "ready") 9 registry in
    (object_find (text "system") r'
      ≡ some (record system { state = copy_field 48 (text "ready"); revision = 2; last_event = 9 }))
    × ((q : Text) → object_id q r' ≡ object_id q registry)
object_set_state_direct_lem_example =
    object_set_state_direct_lem (text "system") (text "ready") 9 registry system found_system
