-- ===== src/Screen/Draw.antt =====
-- What kernel/vga.c draws at once: the blank screen, texts and rules, and the window with its
-- frame.
use glass_os.Prelude.{
  ℕ, ◌+◌, ◌*◌, ◌<◌, ◌≡◌, refl, ◌∙◌, true, false, Bool-cases, inl, inr, [], ◌∷◌, for_range, ltb,
  arith, text,
}
use glass_os.Text.{Text}
use glass_os.Screen.Writes.{
  Draws, Draws-refl, Draws-trans, on_screen, on_screen-offset_of, write_cell-Draws, for_range-Draws,
}
use glass_os.Screen.Cursor.{Fits}
use glass_os.Screen.{
  Screen, write_cell, write_text, draw_horizontal_rule, draw_sides, vga_update_cursor,
  vga_set_color, clear_screen, vga_draw_window, vga_width, vga_height, window_right, console_top,
}

write_text-Draws :
    (x y : ℕ) (cs : Text) (s : Screen) → y < 25 → Draws on_screen s (write_text x y cs s)
unfolding write_text
write_text-Draws x y [] s h = Draws-refl on_screen s
write_text-Draws x y (c ∷ cs) s h = elim (Bool-cases (ltb x window_right)) [
  | inl fits ↦ rw fits (
      Draws-trans on_screen
        (write_cell-Draws on_screen x y c s.current_color s
          (on_screen-offset_of x y (ground arith) h))
        (write_text-Draws (x + 1) y cs (write_cell x y c s.current_color s) h))
  | inr full ↦ rw full (Draws-refl on_screen s)
]

draw_sides-Draws : (y : ℕ) (s : Screen) → y < 25 → Draws on_screen s (draw_sides y s)
unfolding draw_sides
draw_sides-Draws y s h =
    let left = write_cell 0 y b'|' s.current_color s in
    Draws-trans on_screen
      (write_cell-Draws on_screen 0 y b'|' s.current_color s
        (on_screen-offset_of 0 y (omega arith) h))
      (write_cell-Draws on_screen 79 y b'|' left.current_color left
        (on_screen-offset_of 79 y (omega arith) h))

draw_horizontal_rule-Draws :
    (y : ℕ) (s : Screen) → y < 25 → Draws on_screen s (draw_horizontal_rule y s)
unfolding draw_horizontal_rule
draw_horizontal_rule-Draws y s h =
    let left = write_cell 0 y b'+' s.current_color s in
    let rule = for_range 78 1 (λ x t. write_cell x y b'-' t.current_color t) left in
    Draws-trans on_screen
      (write_cell-Draws on_screen 0 y b'+' s.current_color s
        (on_screen-offset_of 0 y (omega arith) h))
      (Draws-trans on_screen
        (for_range-Draws on_screen 78 1 _ left (λ x t low high.
          write_cell-Draws on_screen x y b'-' t.current_color t
            (on_screen-offset_of x y (omega arith) h)))
        (write_cell-Draws on_screen 79 y b'+' rule.current_color rule
          (on_screen-offset_of 79 y (omega arith) h)))

-- The loop of clear_screen.
abbrev blank : Screen → Screen
blank s =
    for_range (vga_width * vga_height) 0 (λ i t. write_cell i 0 b' ' t.current_color t)
      (record s { window_mode = false })

blank-Draws : (s : Screen) → Draws on_screen (record s { window_mode = false }) (blank s)
blank-Draws s =
    for_range-Draws on_screen (vga_width * vga_height) 0 _ (record s { window_mode = false })
      (λ i t low high.
        write_cell-Draws on_screen i 0 b' ' t.current_color t (ground arith, ground arith))

-- clear_screen leaves no window and the cursor in the corner, and writes nothing behind the 4000 bytes
-- of the cells.
pub clear_screen_lem :
    (s : Screen)
    → let t = clear_screen s in
      (t.window_mode ≡ false)
      × (t.cursor_x ≡ 0)
      × (t.cursor_y ≡ 0)
      × ((i : ℕ) → on_screen i ≡ false → t.video_memory i ≡ s.video_memory i)
unfolding clear_screen vga_update_cursor
clear_screen_lem s = ((blank-Draws s).same_mode, refl, refl, (blank-Draws s).outside)

module _ (s : Screen) where
  abbrev clear : Screen
  clear = clear_screen (vga_set_color 0x0F s)

  abbrev top : Screen
  top = draw_sides 1 (draw_horizontal_rule 0 clear)

  abbrev title : Screen
  title =
      write_text 48 1 (text "black background / white text")
        (write_text 2 1 (text "GlassOS Control Window") top)

  abbrev pane : Screen
  pane = for_range 19 console_top draw_sides (draw_horizontal_rule 2 title)

  abbrev foot : Screen
  foot = draw_sides 23 (draw_horizontal_rule 22 pane)

  abbrev help : Screen
  help = write_text 2 23 (text "Type help for commands | clear clears pane | window redraws") foot

  abbrev framed : Screen
  framed = draw_horizontal_rule 24 help

  title-Draws : Draws on_screen clear title
  title-Draws = Draws-trans on_screen (draw_horizontal_rule-Draws 0 clear (omega arith)) (
      Draws-trans on_screen (draw_sides-Draws 1 (draw_horizontal_rule 0 clear) (omega arith)) (
        Draws-trans on_screen
          (write_text-Draws 2 1 (text "GlassOS Control Window") top (omega arith))
          (write_text-Draws 48 1 (text "black background / white text")
            (write_text 2 1 (text "GlassOS Control Window") top) (omega arith))))

  pane-Draws : Draws on_screen title pane
  pane-Draws = Draws-trans on_screen (draw_horizontal_rule-Draws 2 title (omega arith)) (
      for_range-Draws on_screen 19 console_top draw_sides (draw_horizontal_rule 2 title)
        (λ y t low high. draw_sides-Draws y t (omega arith)))

  framed-Draws : Draws on_screen pane framed
  framed-Draws = Draws-trans on_screen (draw_horizontal_rule-Draws 22 pane (omega arith)) (
      Draws-trans on_screen (draw_sides-Draws 23 (draw_horizontal_rule 22 pane) (omega arith)) (
        Draws-trans on_screen
          (write_text-Draws 2 23
            (text "Type help for commands | clear clears pane | window redraws") foot (omega arith))
          (draw_horizontal_rule-Draws 24 help (omega arith))))

  -- vga_draw_window opens the window with the cursor at the start of its pane, so that print_char may
  -- follow, and writes nothing behind the 4000 bytes of the cells.
  pub vga_draw_window_lem :
      let t = vga_draw_window s in
      (t.window_mode ≡ true)
      × Fits t
      × ((i : ℕ) → on_screen i ≡ false → t.video_memory i ≡ s.video_memory i)
  unfolding vga_draw_window vga_update_cursor vga_set_color
  vga_draw_window_lem =
      let all = Draws-trans on_screen title-Draws (Draws-trans on_screen pane-Draws framed-Draws) in
      (refl, refl, λ i h. all.outside i h ∙ (clear_screen_lem (vga_set_color 0x0F s)).3 i h)
