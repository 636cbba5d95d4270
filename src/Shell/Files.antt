-- ===== src/Shell/Files.antt =====
-- Printing files and running modules (kernel/main.c), as steps of Quiet.antt.
use glass_os.Prelude.{
  refl, inl, inr, Bool, true, false, not, Option, none, some, Bool-cases, List, [], ◌∷◌, text, leb,
  if◌then◌else◌,
}
use glass_os.Text.{Text, text_equal, starts_with}
use glass_os.Screen.{Screen, vga_clear_window_content, clear_screen, vga_draw_window}
use glass_os.Screen.Cursor.{Fits}
use glass_os.Screen.Window.{clear_pane-Safe}
use glass_os.Screen.Draw.{clear_screen_lem, vga_draw_window_lem}
use glass_os.Kernel.{Kernel, event_ok}
use glass_os.Console.Output.{HasPolicy}
use glass_os.Event.{event_current}
use glass_os.Policy.{PolicyDecision}
use glass_os.Ramfs.{RamfsFile, size}
use glass_os.Quiet.{
  Quiet, Quiet-trans, if_unit-Quiet, printf-Quiet, print_bytes-Quiet, event_record_kind-Quiet,
  set_current-Quiet, screen-Quiet, ramfs_lookup-Quiet,
}
use glass_os.Shell.Effects.{checked, print_denied-Quiet, show_meminfo-Quiet, show_time-Quiet}
use glass_os.Shell.Modules.{
  is_comment, is_module, module_buffer_size, look_up, print_found, print_file, execute_module_line,
  execute_lines, module_lines, module_text, run_found, run_module,
}

pub vga_clear_window_content-Fits : (s : Screen) → Fits s → Fits (vga_clear_window_content s)
unfolding vga_clear_window_content clear_screen
vga_clear_window_content-Fits s fits = elim (Bool-cases s.window_mode) [
  | inl window ↦ (clear_pane-Safe s window).fits
  | inr plain ↦
      let (mode, at_x, at_y, outside) = clear_screen_lem s in rw (plain, mode, at_x, at_y) refl
]

module _ {k s : Kernel} (q : Quiet k s) where
  pub clear-Quiet : Quiet k (record s { screen = vga_clear_window_content s.screen })
  clear-Quiet = screen-Quiet q _ (vga_clear_window_content-Fits s.screen)

  pub window-Quiet : Quiet k (record s { screen = vga_draw_window s.screen })
  window-Quiet = screen-Quiet q _ (λ fits. (vga_draw_window_lem s.screen).1)

  look_up-Quiet : (path : Text) (policy : PolicyDecision) → Quiet k (look_up path policy s).1
  unfolding look_up
  look_up-Quiet path policy =
      set_current-Quiet (ramfs_lookup-Quiet (set_current-Quiet q policy.event) path)
        (event_current s)

  print_found-Quiet :
      (path : Text) (policy : PolicyDecision) (found : Option RamfsFile)
      → Quiet k (print_found path policy found s).1
  unfolding print_found
  print_found-Quiet path policy none = printf-Quiet q _ _
  print_found-Quiet path policy (some file) =
      let bytes =
        Quiet-trans
          (event_record_kind-Quiet q (text "ramfs") path (text "read") event_ok _ _ (text "state"))
          (print_bytes-Quiet file.data_bytes _) in
      if_state-Quiet _ (Quiet-trans bytes (print_bytes-Quiet (10 ∷ []) _)) bytes
    where
      if_state-Quiet :
          (b : Bool) {x y : Kernel} → Quiet k x → Quiet k y → Quiet k (if b then x else y)
      if_state-Quiet true p r = p
      if_state-Quiet false p r = r

module _ {k s : Kernel} (q : Quiet k s) (ready : HasPolicy k) (source : Text) where
  execute_module_line-Quiet : (line : Text) → Quiet k (execute_module_line source line s).1
  unfolding execute_module_line
  execute_module_line-Quiet line = elim (Bool-cases (is_comment line)) [
    | inl e ↦ rw e q
    | inr e0 ↦ elim (Bool-cases (starts_with line (text "print "))) [
      | inl e ↦ rw (e0, e) (printf-Quiet q _ _)
      | inr e1 ↦ elim (Bool-cases (text_equal line (text "meminfo"))) [
        | inl e ↦ rw (e0, e1, e) (show_meminfo-Quiet q ready source)
        | inr e2 ↦ elim (Bool-cases (text_equal line (text "time"))) [
          | inl e ↦ rw (e0, e1, e2, e) (show_time-Quiet q)
          | inr e3 ↦ elim (Bool-cases (text_equal line (text "clear"))) [
            | inl e ↦ rw (e0, e1, e2, e3, e) (clear-Quiet q)
            | inr e4 ↦ elim (Bool-cases (text_equal line (text "window"))) [
              | inl e ↦ rw (e0, e1, e2, e3, e4, e) (window-Quiet q)
              | inr e5 ↦ rw (e0, e1, e2, e3, e4, e5) (printf-Quiet q _ _)
            ]
          ]
        ]
      ]
    ]
  ]

  pub print_file-Quiet : (path : Text) → Quiet k (print_file source path s).1
  unfolding print_file
  print_file-Quiet path =
      let d = checked q ready source path (text "filesystem:read") in
      if_unit-Quiet _ _ _ (print_denied-Quiet d _)
        (print_found-Quiet (look_up-Quiet d path _) path _ _)

execute_lines-Quiet :
    (ls : List Text) {k s : Kernel} (q : Quiet k s) (ready : HasPolicy k) (source : Text)
    → Quiet k (execute_lines source ls s).1
unfolding execute_lines
execute_lines-Quiet [] q ready source = q
execute_lines-Quiet (l ∷ ls) q ready source =
    execute_lines-Quiet ls (execute_module_line-Quiet q ready source l) ready source

module _ {k s : Kernel} (q : Quiet k s) (ready : HasPolicy k) (source : Text) where
  run_found-Quiet :
      (path : Text) (policy : PolicyDecision) (found : Option RamfsFile)
      → Quiet k (run_found source path policy found s).1
  unfolding run_found
  run_found-Quiet path policy none = printf-Quiet q _ _
  run_found-Quiet path policy (some file) = elim (Bool-cases (not (is_module file.type))) [
    | inl e ↦ rw e (printf-Quiet (event_record_kind-Quiet q _ _ _ _ _ _ _) _ _)
    | inr e0 ↦ elim (Bool-cases (leb module_buffer_size (size file))) [
      | inl e ↦ rw (e0, e) (printf-Quiet (event_record_kind-Quiet q _ _ _ _ _ _ _) _ _)
      | inr e1 ↦
          rw (e0, e1)
            (execute_lines-Quiet (module_lines (module_text file))
              (printf-Quiet (event_record_kind-Quiet q _ _ _ _ _ _ _) _ _) ready source)
    ]
  ]

module _ {k s : Kernel} (q : Quiet k s) (ready : HasPolicy k) (source : Text) where
  pub run_module-Quiet : (path : Text) → Quiet k (run_module source path s).1
  unfolding run_module
  run_module-Quiet path =
      let d = checked q ready source path (text "module:load") in
      if_unit-Quiet _ _ _ (print_denied-Quiet d _)
        (run_found-Quiet (look_up-Quiet d path _) ready source path _ _)
