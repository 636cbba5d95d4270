-- ===== src/Screen/Cursor.antt =====
-- The cursor of kernel/vga.c stays where a cell may be written, and nothing else is written: not
-- the frame of the window, and not the memory behind the screen.
use glass_os.Prelude.{
  ℕ, ◌+◌, ◌≤◌, ◌<◌, ◌≡◌, refl, ◌∙◌, Bool, true, false, ◌&&◌, Bool-cases, inl, inr, ltb, leb, ◌==◌,
  arith, if◌then◌else◌,
}
use glass_os.Screen.Writes.{
  on_screen, in_pane, offset_of, on_screen-offset_of, in_pane-offset_of, write_cell-Draws,
  scroll_screen-Scrolled, scroll_window_content-Scrolled,
}
use glass_os.Screen.{
  Screen, keep_in_pane, keep_cursor_in_console, scroll_screen, scroll_window_content,
  vga_update_cursor, step_left, vga_move_cursor_left, vga_backspace, advance, new_line,
  write_at_cursor, put_char, vga_height,
}

-- In the pane in window mode, on the screen without a window.
abbrev pub cursor_fits : Bool → ℕ → ℕ → Bool
cursor_fits mode x y =
    if mode then leb 2 x && leb x 77 && leb 3 y && leb y 21 else ltb x 80 && ltb y 25

abbrev pub Fits : Screen → Type 0
Fits s = cursor_fits s.window_mode s.cursor_x s.cursor_y ≡ true

-- Where an operation may write.
abbrev pub writable : Bool → ℕ → Bool
writable mode i = if mode then in_pane i else on_screen i

-- An operation that leads from `s` to `t` left the cursor in place and wrote only where it may.
pub record Safe (s t : Screen) : Type 0 where
  pub fits : Fits t
  pub mode : t.window_mode ≡ s.window_mode
  pub outside : (i : ℕ) → writable s.window_mode i ≡ false → t.video_memory i ≡ s.video_memory i

pub Safe-trans : {s t u : Screen} → Safe s t → Safe t u → Safe s u
Safe-trans {s} {t} {u} a b = record {
  fits = b.fits;
  mode = b.mode ∙ a.mode;
  outside = λ i h. b.outside i (rw a.mode h) ∙ a.outside i h;
}

pub update_cursor-Safe : (s t : Screen) → Safe s t → Safe s (vga_update_cursor t)
unfolding vga_update_cursor
update_cursor-Safe s t h = record { fits = h.fits; mode = h.mode; outside = h.outside }

-- A cursor that an operation left beyond the end of its line or below the last one.
abbrev Loose : Screen → Type 0
Loose s = s.window_mode ≡ false → s.cursor_x < 80

module _ (s : Screen) where
  keep_in_pane_mode : (keep_in_pane s).window_mode ≡ s.window_mode
  unfolding keep_in_pane
  keep_in_pane_mode = ground arith

  keep_in_pane_memory : (i : ℕ) → (keep_in_pane s).video_memory i ≡ s.video_memory i
  unfolding keep_in_pane
  keep_in_pane_memory i = ground arith

  keep_in_pane_bounds :
      (2 ≤ (keep_in_pane s).cursor_x)
      × ((keep_in_pane s).cursor_x ≤ 77)
      × (3 ≤ (keep_in_pane s).cursor_y)
  unfolding keep_in_pane
  keep_in_pane_bounds = (ground arith, ground arith, ground arith)

  keep_scroll :
      s.window_mode ≡ false
      → leb vga_height s.cursor_y ≡ true
      → keep_cursor_in_console s ≡ scroll_screen s
  unfolding keep_cursor_in_console
  keep_scroll plain low = ground arith

  keep_still :
      s.window_mode ≡ false → leb vga_height s.cursor_y ≡ false → keep_cursor_in_console s ≡ s
  unfolding keep_cursor_in_console
  keep_still plain high = ground arith

  keep_scroll_pane :
      s.window_mode ≡ true
      → ltb 21 (keep_in_pane s).cursor_y ≡ true
      → keep_cursor_in_console s ≡ scroll_window_content (keep_in_pane s)
  unfolding keep_cursor_in_console
  keep_scroll_pane window low = ground arith

  keep_still_pane :
      s.window_mode ≡ true
      → ltb 21 (keep_in_pane s).cursor_y ≡ false
      → keep_cursor_in_console s ≡ keep_in_pane s
  unfolding keep_cursor_in_console
  keep_still_pane window high = ground arith

  keep_screen : s.window_mode ≡ false → s.cursor_x < 80 → Safe s (keep_cursor_in_console s)
  keep_screen plain narrow = elim (Bool-cases (leb vga_height s.cursor_y)) [
    | inl low ↦
        let scrolled = scroll_screen-Scrolled s in
        rw (keep_scroll plain low) (record {
          fits = ground (arith, scrolled.mode, scrolled.at_x, scrolled.at_y, plain);
          mode = scrolled.mode;
          outside = λ i h. scrolled.outside i (ground (arith, h, plain));
        })
    | inr high ↦
        rw (keep_still plain high)
          (record { fits = ground (arith, plain); mode = refl; outside = λ i h. refl })
  ]

  keep_window : s.window_mode ≡ true → Safe s (keep_cursor_in_console s)
  keep_window window =
      let kept = keep_in_pane s in
      elim (Bool-cases (ltb 21 kept.cursor_y)) [
        | inl low ↦
            let scrolled = scroll_window_content-Scrolled kept in
            rw (keep_scroll_pane window low) (record {
              fits =
                  ground
                    (arith, scrolled.mode, scrolled.at_x, scrolled.at_y, window, keep_in_pane_mode);
              mode = scrolled.mode ∙ keep_in_pane_mode;
              outside =
                  λ i h. scrolled.outside i (ground (arith, h, window)) ∙ keep_in_pane_memory i;
            })
        | inr high ↦ rw (keep_still_pane window high) (record {
          fits = ground (
            arith, window, keep_in_pane_mode, keep_in_pane_bounds.0, keep_in_pane_bounds.1,
            keep_in_pane_bounds.2,
          );
          mode = keep_in_pane_mode;
          outside = λ i h. keep_in_pane_memory i;
        })
      ]

  pub keep_cursor_in_console-Safe : Loose s → Safe s (keep_cursor_in_console s)
  keep_cursor_in_console-Safe loose = elim (Bool-cases s.window_mode) [
    | inl window ↦ keep_window window
    | inr plain ↦ keep_screen plain (loose plain)
  ]

  -- The cell at a cursor that fits may be written.
  cell_writable :
      Fits s
      → (writable s.window_mode (offset_of s.cursor_x s.cursor_y) ≡ true)
        × (writable s.window_mode (offset_of s.cursor_x s.cursor_y + 1) ≡ true)
  cell_writable fits = elim (Bool-cases s.window_mode) [
    | inl window ↦ rw window (
        in_pane-offset_of s.cursor_x s.cursor_y (ground arith) (ground arith) (ground arith)
          (ground arith))
    | inr plain ↦ rw plain (on_screen-offset_of s.cursor_x s.cursor_y (ground arith) (ground arith))
  ]

  write_at_cursor_lem :
      (c : ℕ)
      → Fits s
      → let t = write_at_cursor c s in
        Loose t
        × (t.window_mode ≡ s.window_mode)
        × ((i : ℕ) → writable s.window_mode i ≡ false → t.video_memory i ≡ s.video_memory i)
  unfolding write_at_cursor advance
  write_at_cursor_lem c fits =
      let d =
        write_cell-Draws (writable s.window_mode) s.cursor_x s.cursor_y c s.current_color s
          (cell_writable fits) in
      (
        λ plain. ground (arith, plain, fits, d.same_x, d.same_y, d.same_mode),
        ground (arith, d.same_mode),
        λ i h. ground (arith, d.outside i h),
      )

new_line-Loose : (s : Screen) → Loose (new_line s)
unfolding new_line
new_line-Loose s plain = ground (arith, plain)

from_new_line : (s : Screen) {t : Screen} → Safe (new_line s) t → Safe s t
unfolding new_line
from_new_line s h = record { fits = h.fits; mode = h.mode; outside = h.outside }

-- print_char keeps the cursor in the pane of the window, or on the screen when there is no window,
-- and writes nothing outside of it.
pub put_char-Safe : (c : ℕ) (s : Screen) → Fits s → Safe s (put_char c s)
unfolding put_char
put_char-Safe c s fits = elim (Bool-cases (c == 10)) [
  | inl newline ↦ rw newline (
      update_cursor-Safe s (keep_cursor_in_console (new_line s))
        (from_new_line s (keep_cursor_in_console-Safe (new_line s) (new_line-Loose s))))
  | inr other ↦
      let kept = keep_cursor_in_console-Safe s (λ plain. ground (arith, plain, fits)) in
      let t = keep_cursor_in_console s in
      let written = write_at_cursor_lem t c kept.fits in
      let last = keep_cursor_in_console-Safe (write_at_cursor c t) written.0 in
      rw other (
        update_cursor-Safe s (keep_cursor_in_console (write_at_cursor c t)) (record {
          fits = last.fits;
          mode = last.mode ∙ (written.1 ∙ kept.mode);
          outside = λ i h.
              last.outside i (ground (arith, h, kept.mode, written.1))
              ∙ (written.2 i (ground (arith, h, kept.mode)) ∙ kept.outside i h);
        }))
]

step_left-Safe : (s : Screen) → Fits s → Safe s (step_left s)
unfolding step_left
step_left-Safe s fits = record {
  fits = ground (arith, fits);
  mode = ground arith;
  outside = λ i h. ground arith;
}

-- vga_move_cursor_left keeps the cursor there too.
pub vga_move_cursor_left-Safe : (s : Screen) → Fits s → Safe s (vga_move_cursor_left s)
unfolding vga_move_cursor_left
vga_move_cursor_left-Safe s fits = update_cursor-Safe s (step_left s) (step_left-Safe s fits)

pub vga_backspace-Safe : (s : Screen) → Fits s → Safe s (vga_backspace s)
unfolding vga_backspace
vga_backspace-Safe s fits = elim (Bool-cases (s.cursor_x == 0 && s.cursor_y == 0)) [
  | inl home ↦ rw home (record { fits = fits; mode = refl; outside = λ i h. refl })
  | inr away ↦
      let moved = vga_move_cursor_left s in
      let left = vga_move_cursor_left-Safe s fits in
      let d =
        write_cell-Draws (writable moved.window_mode) moved.cursor_x moved.cursor_y b' '
          moved.current_color moved (cell_writable moved left.fits) in
      rw away (record {
        fits = ground (arith, left.fits, d.same_x, d.same_y, d.same_mode);
        mode = d.same_mode ∙ left.mode;
        outside = λ i h. d.outside i (ground (arith, h, left.mode)) ∙ left.outside i h;
      })
]
