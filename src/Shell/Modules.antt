-- ===== src/Shell/Modules.antt =====
-- Printing files and running modules (print_file, run_module and execute_module_line of
-- kernel/main.c).
use glass_os.Prelude.{
  ℕ, ◌-◌, Bool, true, false, not, ◌||◌, Option, none, some, List, [], ◌∷◌, take, drop, replicate,
  get_or, text, leb, ◌==◌, if◌then◌else◌,
}
use glass_os.Text.{Text, text_equal, starts_with}
use glass_os.Kernel.{event_ok, event_denied, M}
use glass_os.Console.{str, printf, print_bytes}
use glass_os.Event.{event_record_kind, event_current, event_set_current}
use glass_os.Policy.{PolicyDecision, policy_check}
use glass_os.Ramfs.{
  RamfsFile, RamfsFileType, ramfs_file_text, ramfs_file_module, ramfs_file_executable, size,
  ramfs_lookup, ramfs_read,
}
use glass_os.Screen.{vga_clear_window_content, vga_draw_window}
use glass_os.Shell.Commands.{shell, print_denied, show_meminfo, show_time}

-- The lookup of a file, under the event of the decision.
unfoldable pub look_up : Text → PolicyDecision → M (Option RamfsFile)
look_up path policy k =
    let command_event = event_current k in
    let (_, k1) = event_set_current policy.event k in
    let (found, k2) = ramfs_lookup path k1 in
    let (_, k3) = event_set_current command_event k2 in (found, k3)

-- The end of print_file: the bytes, and a new line where they do not end in one.
unfoldable pub print_found : Text → PolicyDecision → Option RamfsFile → M (Unit {0})
print_found path policy none k = printf (text "File not found: %s\n") (str path ∷ []) k
print_found path policy (some file) k =
    let (_, k1) =
      event_record_kind (text "ramfs") path (text "read") event_ok policy.event policy.reason
        (text "state") k in
    let k2 = print_bytes file.data_bytes k1 in
    let bytes = size file in
    (
      tt,
      if bytes == 0 || not (get_or file.data_bytes (bytes - 1) 0 == 10)
          then print_bytes (10 ∷ []) k2
          else k2,
    )

unfoldable pub print_file : Text → Text → M (Unit {0})
print_file source path k =
    let (policy, k1) = policy_check source shell path (text "filesystem:read") k in
    if not policy.allowed
    then print_denied policy k1
    else let (found, k2) = look_up path policy k1 in print_found path policy found k2

abbrev pub is_comment : Text → Bool
is_comment [] = true
is_comment (c ∷ cs) = c == b'#'

unfoldable pub execute_module_line : Text → Text → M (Unit {0})
execute_module_line source line k =
    if is_comment line
    then (tt, k)
    else if starts_with line (text "print ")
    then printf (text "%s\n") (str (drop 6 line) ∷ []) k
    else if text_equal line (text "meminfo")
    then show_meminfo source k
    else if text_equal line (text "time")
    then show_time k
    else if text_equal line (text "clear")
    then (tt, record k { screen = vga_clear_window_content k.screen })
    else if text_equal line (text "window")
    then (tt, record k { screen = vga_draw_window k.screen })
    else printf (text "Module directive not supported: %s\n") (str line ∷ []) k

abbrev pub module_buffer_size : ℕ
module_buffer_size = 512

-- The bytes up to the first NUL.
unfoldable pub c_string : List ℕ → Text
c_string [] = []
c_string (c ∷ cs) = let rest = c_string cs in if c == 0 then [] else c ∷ rest

-- A byte in front of the first line.
unfoldable pub onto_line : ℕ → List Text → List Text
onto_line c [] = (c ∷ []) ∷ []
onto_line c (l ∷ ls) = (c ∷ l) ∷ ls

-- The lines that the loop of run_module cuts the buffer into.
unfoldable pub module_lines : Text → List Text
unfolding onto_line
module_lines [] = []
module_lines (c ∷ cs) =
    let rest = module_lines cs in if c == 10 then [] ∷ rest else onto_line c rest

unfoldable pub execute_lines : Text → List Text → M (Unit {0})
execute_lines source [] k = (tt, k)
execute_lines source (l ∷ ls) k = execute_lines source ls (execute_module_line source l k).1

-- What run_module executes of a file: its bytes go to a buffer first, whose old bytes they cover.
unfoldable pub module_text : RamfsFile → Text
module_text file =
    let (bytes, buffer) =
      ramfs_read file 0 (replicate module_buffer_size 0) (module_buffer_size - 1) in
    c_string (take bytes buffer)

abbrev pub is_module : RamfsFileType → Bool
is_module ramfs_file_text = false
is_module ramfs_file_module = true
is_module ramfs_file_executable = false

-- The end of run_module, behind the lookup.
unfoldable pub run_found : Text → Text → PolicyDecision → Option RamfsFile → M (Unit {0})
unfolding module_lines module_text
run_found source path policy none k = printf (text "Module not found: %s\n") (str path ∷ []) k
run_found source path policy (some file) k =
    if not (is_module file.type)
    then (let (_, k1) =
          event_record_kind (text "ramfs") path (text "type_check") event_denied policy.event
            (text "deny:not-module") (text "policy") k in
        printf (text "Not a module: %s\n") (str path ∷ []) k1)
    else if leb module_buffer_size (size file)
    then (let (_, k1) =
          event_record_kind (text "ramfs") path (text "size_check") event_denied policy.event
            (text "deny:too-large") (text "policy") k in
        printf (text "Module too large: %s\n") (str path ∷ []) k1)
    else let (_, k1) =
        event_record_kind (text "ramfs") path (text "read") event_ok policy.event policy.reason
          (text "state") k in
      let (_, k2) = printf (text "Loading %s\n") (str path ∷ []) k1 in
      execute_lines source (module_lines (module_text file)) k2

unfoldable pub run_module : Text → Text → M (Unit {0})
run_module source path k =
    let (policy, k1) = policy_check source shell path (text "module:load") k in
    if not policy.allowed
    then print_denied policy k1
    else let (found, k2) = look_up path policy k1 in run_found source path policy found k2
