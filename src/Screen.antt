-- ===== src/Screen.antt =====
-- The VGA text screen (kernel/vga.c): 25 rows of 80 cells of two bytes, the cursor, and the window
-- mode, in which the text stays in a pane inside of a frame.
pub mod Writes
pub mod Cursor
pub mod Window
pub mod Draw
use glass_os.Prelude.{
  ℕ, ◌+◌, ◌-◌, ◌*◌, ◌/◌, ◌%◌, ◌^◌, Bool, true, false, not, ◌&&◌, ◌||◌, List, [], ◌∷◌, for_range,
  ltb, leb, ◌==◌, if◌then◌else◌, text,
}
use glass_os.Text.{Text}

-- The statics of vga.c, the bytes at video_memory, and the registers of the CRT controller.
pub record Screen : Type 0 where
  pub video_memory : ℕ → ℕ
  pub cursor_x : ℕ
  pub cursor_y : ℕ
  pub current_color : ℕ
  pub window_mode : Bool
  pub crtc : ℕ → ℕ

abbrev pub vga_width : ℕ
vga_width = 80

abbrev pub vga_height : ℕ
vga_height = 25

-- WINDOW_LEFT and WINDOW_TOP are 0, and CONSOLE_LEFT is 2.
abbrev pub window_right : ℕ
window_right = 79

abbrev pub window_bottom : ℕ
window_bottom = 24

abbrev pub console_left : ℕ
console_left = 2

abbrev pub console_right : ℕ
console_right = 77

abbrev pub console_top : ℕ
console_top = 3

abbrev pub console_bottom : ℕ
console_bottom = 21

-- `array[index] = value`
abbrev pub poke : ℕ → ℕ → (ℕ → ℕ) → ℕ → ℕ
poke index value f i = if i == index then value else f i

unfoldable pub vga_set_color : ℕ → Screen → Screen
vga_set_color color s = record s { current_color = color }

unfoldable pub write_cell : ℕ → ℕ → ℕ → ℕ → Screen → Screen
write_cell x y c color s =
    let offset = (y * vga_width + x) * 2 in
    record s { video_memory = poke (offset + 1) color (poke offset c s.video_memory) }

-- The two assignments that copy a cell over the one above it.
unfoldable pub copy_up : ℕ → ℕ → Screen → Screen
copy_up y x s =
    let target = ((y - 1) * vga_width + x) * 2 in
    let source = (y * vga_width + x) * 2 in
    let first = poke target (s.video_memory source) s.video_memory in
    record s { video_memory = poke (target + 1) (first (source + 1)) first }

unfoldable pub write_text : ℕ → ℕ → Text → Screen → Screen
write_text x y [] s = s
write_text x y (c ∷ cs) s =
    let rest = write_text (x + 1) y cs (write_cell x y c s.current_color s) in
    if ltb x window_right then rest else s

unfoldable pub draw_horizontal_rule : ℕ → Screen → Screen
draw_horizontal_rule y s =
    let left = write_cell 0 y b'+' s.current_color s in
    let rule = for_range 78 1 (λ x t. write_cell x y b'-' t.current_color t) left in
    write_cell window_right y b'+' rule.current_color rule

unfoldable pub blank_row : ℕ → ℕ → ℕ → Screen → Screen
blank_row y start rounds s = for_range rounds start (λ x t. write_cell x y b' ' t.current_color t) s

unfoldable pub scroll_screen : Screen → Screen
scroll_screen s =
    let moved = for_range 24 1 (λ y t. for_range vga_width 0 (copy_up y) t) s in
    record (blank_row (vga_height - 1) 0 vga_width moved) { cursor_y = vga_height - 1 }

unfoldable pub scroll_window_content : Screen → Screen
scroll_window_content s =
    let moved = for_range 18 (console_top + 1) (λ y t. for_range 78 1 (copy_up y) t) s in
    record (blank_row console_bottom 1 78 moved) {
      cursor_y = console_bottom;
      cursor_x = console_left;
    }

-- The three assignments of keep_cursor_in_console in window mode, before the scrolling.
unfoldable pub keep_in_pane : Screen → Screen
keep_in_pane s =
    let a = if ltb s.cursor_x console_left then record s { cursor_x = console_left } else s in
    let b =
      if ltb console_right a.cursor_x
      then record a { cursor_x = console_left; cursor_y = a.cursor_y + 1 }
      else a in
    if ltb b.cursor_y console_top then record b { cursor_y = console_top } else b

unfoldable pub keep_cursor_in_console : Screen → Screen
keep_cursor_in_console s =
    if not s.window_mode
    then (if leb vga_height s.cursor_y then scroll_screen s else s)
    else let kept = keep_in_pane s in
      if ltb console_bottom kept.cursor_y then scroll_window_content kept else kept

unfoldable pub vga_update_cursor : Screen → Screen
vga_update_cursor s =
    let position = (s.cursor_y * vga_width + s.cursor_x) % 2 ^ 16 in
    record s { crtc = poke 0x0E (position / 256) (poke 0x0F (position % 256) s.crtc) }

unfoldable pub vga_enable_cursor : Screen → Screen
unfolding vga_update_cursor
vga_enable_cursor s = vga_update_cursor (record s { crtc = poke 0x0B 15 (poke 0x0A 14 s.crtc) })

-- vga_move_cursor_left before its last call.
unfoldable pub step_left : Screen → Screen
step_left s =
    if s.window_mode
    then (if ltb console_left s.cursor_x
        then record s { cursor_x = s.cursor_x - 1 }
        else if ltb console_top s.cursor_y
        then record s { cursor_y = s.cursor_y - 1; cursor_x = console_right }
        else s)
    else if ltb 0 s.cursor_x
    then record s { cursor_x = s.cursor_x - 1 }
    else if ltb 0 s.cursor_y
    then record s { cursor_y = s.cursor_y - 1; cursor_x = vga_width - 1 }
    else s

unfoldable pub vga_move_cursor_left : Screen → Screen
vga_move_cursor_left s = vga_update_cursor (step_left s)

-- The wrapping at the end of a line when there is no window.
unfoldable pub wrap_line : Screen → Screen
wrap_line s =
    if leb vga_width s.cursor_x then record s { cursor_x = 0; cursor_y = s.cursor_y + 1 } else s

unfoldable pub vga_move_cursor_right : Screen → Screen
vga_move_cursor_right s =
    let moved = record s { cursor_x = s.cursor_x + 1 } in
    if moved.window_mode
    then vga_update_cursor (keep_cursor_in_console moved)
    else let wrapped = wrap_line moved in
      vga_update_cursor (if leb vga_height wrapped.cursor_y then scroll_screen wrapped else wrapped)

unfoldable pub vga_backspace : Screen → Screen
vga_backspace s =
    if s.cursor_x == 0 && s.cursor_y == 0
    then s
    else let moved = vga_move_cursor_left s in
      write_cell moved.cursor_x moved.cursor_y b' ' moved.current_color moved

-- The step behind a character that was written.
unfoldable pub advance : Screen → Screen
advance s =
    let moved = record s { cursor_x = s.cursor_x + 1 } in
    if moved.window_mode && ltb console_right moved.cursor_x
    then record moved { cursor_x = console_left; cursor_y = moved.cursor_y + 1 }
    else if leb vga_width moved.cursor_x
    then record moved { cursor_x = 0; cursor_y = moved.cursor_y + 1 }
    else moved

unfoldable pub new_line : Screen → Screen
new_line s = record s {
  cursor_x = if s.window_mode then console_left else 0;
  cursor_y = s.cursor_y + 1;
}

-- The character at the cursor, and the cursor behind it.
unfoldable pub write_at_cursor : ℕ → Screen → Screen
write_at_cursor c s = advance (write_cell s.cursor_x s.cursor_y c s.current_color s)

-- print_char on the screen, behind its bytes for the two ports.
unfoldable pub put_char : ℕ → Screen → Screen
put_char c s =
    let written = if c == 10 then new_line s else write_at_cursor c (keep_cursor_in_console s) in
    vga_update_cursor (keep_cursor_in_console written)

unfoldable pub clear_screen : Screen → Screen
clear_screen s =
    let blank =
      for_range (vga_width * vga_height) 0 (λ i t. write_cell i 0 b' ' t.current_color t)
        (record s { window_mode = false }) in
    vga_update_cursor (record blank { cursor_x = 0; cursor_y = 0 })

unfoldable pub vga_clear_window_content : Screen → Screen
vga_clear_window_content s =
    if not s.window_mode
    then clear_screen s
    else let blank = for_range 19 console_top (λ y t. blank_row y 1 78 t) s in
      vga_update_cursor (record blank { cursor_x = console_left; cursor_y = console_top })

-- The two ends of a row of the frame.
unfoldable pub draw_sides : ℕ → Screen → Screen
draw_sides y s =
    let left = write_cell 0 y b'|' s.current_color s in
    write_cell window_right y b'|' left.current_color left

-- VGA_COLOR_WHITE_ON_BLACK is 0x0F.
unfoldable pub vga_draw_window : Screen → Screen
vga_draw_window s =
    let clear = clear_screen (vga_set_color 0x0F s) in
    let top = draw_sides 1 (draw_horizontal_rule 0 clear) in
    let title =
      write_text 48 1 (text "black background / white text")
        (write_text 2 1 (text "GlassOS Control Window") top) in
    let pane = for_range 19 console_top draw_sides (draw_horizontal_rule 2 title) in
    let foot = draw_sides 23 (draw_horizontal_rule 22 pane) in
    let help =
      write_text 2 23 (text "Type help for commands | clear clears pane | window redraws") foot in
    let framed = draw_horizontal_rule window_bottom help in
    vga_update_cursor
      (record framed { cursor_x = console_left; cursor_y = console_top; window_mode = true })
