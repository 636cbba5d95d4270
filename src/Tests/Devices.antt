-- ===== src/Tests/Devices.antt =====
-- The configuration, the file system and the screen.
use glass_os.Prelude.{true, false, ◌≡◌, ◌≢◌, refl, ◌⊎◌, arith, none, some, [], ◌∷◌, map, text}
use glass_os.Text.{Text, text_equal, copy_field}
use glass_os.Config.{config_get, config_set, config_value_size, find_entry}
use glass_os.Config.Access.{config_set_lem}
use glass_os.Ramfs.{RamfsFile, ramfs_read, ramfs_file_text}
use glass_os.Ramfs.Read.{ramfs_read_lem}
use glass_os.Screen.{
  put_char, write_cell, keep_cursor_in_console, keep_in_pane, advance, write_at_cursor,
  vga_update_cursor,
}
use glass_os.Screen.Cursor.{Safe}
use glass_os.Screen.Window.{call_char, call_left, call_backspace, run_calls, run_calls-Safe}
use glass_os.Tests.Sample.{kernel, screen}

config_set_lem_example :
    let (done, k') = config_set (text "/config/theme") (text "dark") kernel in
    ((config_get (text "/config/theme") kernel.config ≡ none)
      × (done ≡ false)
      × (k'.config ≡ kernel.config))
    ⊎ ((config_get (text "/config/theme") kernel.config ≢ none)
        × (done ≡ true)
        × (config_get (text "/config/theme") k'.config
            ≡ some (copy_field config_value_size (text "dark")))
        × ((other : Text)
            → other ≢ text "/config/theme"
            → config_get other k'.config ≡ config_get other kernel.config)
        × (map (λ e. e.key) k'.config ≡ map (λ e. e.key) kernel.config))
config_set_lem_example = config_set_lem (text "/config/theme") (text "dark") kernel

theme_is_light : config_get (text "/config/theme") kernel.config ≡ some (text "light")
unfolding config_get find_entry text_equal text
theme_is_light = refl

abbrev note_file : RamfsFile
note_file = record {
  path = text "/note";
  data_bytes = 1 ∷ 2 ∷ 3 ∷ 4 ∷ 5 ∷ [];
  type = ramfs_file_text;
}

ramfs_read_lem_example : ramfs_read note_file 2 (9 ∷ 9 ∷ 9 ∷ 9 ∷ []) 2 ≡ (2, 3 ∷ 4 ∷ 9 ∷ 9 ∷ [])
ramfs_read_lem_example = ramfs_read_lem note_file 2 (9 ∷ 9 ∷ 9 ∷ 9 ∷ []) 2 (omega arith)

run_calls-Safe_example :
    Safe screen (run_calls (call_char b'a' ∷ call_char 10 ∷ call_left ∷ call_backspace ∷ []) screen)
run_calls-Safe_example =
    run_calls-Safe (call_char b'a' ∷ call_char 10 ∷ call_left ∷ call_backspace ∷ []) screen refl

a_in_the_corner : (put_char b'a' screen).video_memory 484 ≡ b'a'
unfolding put_char write_at_cursor write_cell keep_cursor_in_console keep_in_pane advance
    vga_update_cursor
a_in_the_corner = refl
