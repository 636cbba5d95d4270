-- ===== src/Screen/Window.antt =====
-- The operations of kernel/vga.c that draw the whole screen or the whole pane, and series of
-- operations.
use glass_os.Prelude.{
  ℕ, ◌+◌, ◌<◌, ◌≡◌, refl, ◌∙◌, true, false, Bool-cases, inl, inr, List, [], ◌∷◌, for_range, leb,
  arith,
}
use glass_os.Screen.Writes.{
  Draws, in_pane, in_pane-offset_of, for_range-Draws, blank_row-Draws, scroll_screen-Scrolled,
}
use glass_os.Screen.Cursor.{
  Fits, Safe, Safe-trans, update_cursor-Safe, keep_cursor_in_console-Safe, put_char-Safe,
  vga_move_cursor_left-Safe, vga_backspace-Safe,
}
use glass_os.Screen.{
  Screen, blank_row, keep_cursor_in_console, scroll_screen, vga_update_cursor, wrap_line,
  vga_move_cursor_left, vga_move_cursor_right, vga_backspace, put_char, vga_clear_window_content,
  vga_height, console_top,
}

module _ (s : Screen) where
  abbrev moved : Screen
  moved = record s { cursor_x = s.cursor_x + 1 }

  right_window :
      s.window_mode ≡ true
      → vga_move_cursor_right s ≡ vga_update_cursor (keep_cursor_in_console moved)
  unfolding vga_move_cursor_right
  right_window window = ground arith

  right_scroll :
      s.window_mode ≡ false
      → leb vga_height (wrap_line moved).cursor_y ≡ true
      → vga_move_cursor_right s ≡ vga_update_cursor (scroll_screen (wrap_line moved))
  unfolding vga_move_cursor_right
  right_scroll plain low = ground arith

  right_still :
      s.window_mode ≡ false
      → leb vga_height (wrap_line moved).cursor_y ≡ false
      → vga_move_cursor_right s ≡ vga_update_cursor (wrap_line moved)
  unfolding vga_move_cursor_right
  right_still plain high = ground arith

  wrap_bounds :
      Fits s
      → s.window_mode ≡ false
      → ((wrap_line moved).cursor_x < 80)
        × ((wrap_line moved).window_mode ≡ false)
        × ((i : ℕ) → (wrap_line moved).video_memory i ≡ s.video_memory i)
  unfolding wrap_line
  wrap_bounds fits plain = (ground (arith, fits, plain), ground (arith, plain), λ i. ground arith)

  vga_move_cursor_right-Safe : Fits s → Safe s (vga_move_cursor_right s)
  vga_move_cursor_right-Safe fits = elim (Bool-cases s.window_mode) [
    | inl window ↦
        let kept = keep_cursor_in_console-Safe moved (λ plain. ground (arith, window, plain)) in
        rw (right_window window) (
          update_cursor-Safe s (keep_cursor_in_console moved)
            (record { fits = kept.fits; mode = kept.mode; outside = kept.outside }))
    | inr plain ↦
        let wrapped = wrap_bounds fits plain in
        let w = wrap_line moved in
        elim (Bool-cases (leb vga_height w.cursor_y)) [
          | inl low ↦
              let scrolled = scroll_screen-Scrolled w in
              rw (right_scroll plain low) (
                update_cursor-Safe s (scroll_screen w) (record {
                  fits =
                      ground
                        (arith, scrolled.mode, scrolled.at_x, scrolled.at_y, wrapped.0, wrapped.1);
                  mode = scrolled.mode ∙ ground (arith, wrapped.1, plain);
                  outside = λ i h. scrolled.outside i (ground (arith, h, plain)) ∙ wrapped.2 i;
                }))
          | inr high ↦ rw (right_still plain high) (
              update_cursor-Safe s w (record {
                fits = ground (arith, wrapped.0, wrapped.1, high);
                mode = ground (arith, wrapped.1, plain);
                outside = λ i h. wrapped.2 i;
              }))
        ]
  ]

  -- vga_clear_window_content in window mode
  clear_pane :
      s.window_mode ≡ true
      → vga_clear_window_content s
        ≡ vga_update_cursor (record (for_range 19 console_top (λ y t. blank_row y 1 78 t) s) {
          cursor_x = 2;
          cursor_y = 3;
        })
  unfolding vga_clear_window_content
  clear_pane window = ground arith

  pub clear_pane-Safe : s.window_mode ≡ true → Safe s (vga_clear_window_content s)
  clear_pane-Safe window =
      let d : Draws in_pane s (for_range 19 console_top (λ y t. blank_row y 1 78 t) s) =
        for_range-Draws in_pane 19 console_top _ s (λ y t low high.
          blank_row-Draws in_pane y 1 78 t (λ x low' high'.
            in_pane-offset_of x y (omega arith) (omega arith) (omega arith) (omega arith))) in
      rw (clear_pane window) (
        update_cursor-Safe s _ (record {
          fits = ground (arith, d.same_mode, window);
          mode = d.same_mode;
          outside = λ i h. d.outside i (ground (arith, h, window));
        }))

-- The calls that the rest of the kernel makes while it prints and edits.
pub data ScreenCall : Type 0 where
  call_left call_right call_backspace : ScreenCall
  call_char : ℕ → ScreenCall

abbrev pub run_call : ScreenCall → Screen → Screen
run_call call_left s = vga_move_cursor_left s
run_call call_right s = vga_move_cursor_right s
run_call call_backspace s = vga_backspace s
run_call (call_char c) s = put_char c s

pub run_calls : List ScreenCall → Screen → Screen
run_calls [] s = s
run_calls (call ∷ calls) s = run_calls calls (run_call call s)

run_call-Safe : (call : ScreenCall) (s : Screen) → Fits s → Safe s (run_call call s)
run_call-Safe call_left s fits = vga_move_cursor_left-Safe s fits
run_call-Safe call_right s fits = vga_move_cursor_right-Safe s fits
run_call-Safe call_backspace s fits = vga_backspace-Safe s fits
run_call-Safe (call_char c) s fits = put_char-Safe c s fits

-- If the cursor lies in the pane of the window, or on the screen when there is no window, then it
-- still does after any series of print_char, vga_backspace and moves of the cursor; the mode is the
-- same, and no byte outside of the pane, or of the screen, was written: the frame of the window
-- stays.
pub run_calls-Safe : (calls : List ScreenCall) (s : Screen) → Fits s → Safe s (run_calls calls s)
unfolding run_calls
run_calls-Safe [] s fits = record { fits = fits; mode = refl; outside = λ i h. refl }
run_calls-Safe (call ∷ calls) s fits =
    let first = run_call-Safe call s fits in
    Safe-trans first (run_calls-Safe calls (run_call call s) first.fits)
