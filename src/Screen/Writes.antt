-- ===== src/Screen/Writes.antt =====
-- Which bytes the drawing loops of kernel/vga.c write: all of them lie in a region of the screen.
use glass_os.Prelude.{
  inl, inr, ℕ, ◌+◌, ◌-◌, ◌*◌, ◌/◌, ◌%◌, ◌≤◌, ◌<◌, ◌≡◌, refl, ◌∙◌, Bool, true, false, ◌&&◌,
  Bool-cases, for_range, for_range_keeps, ltb, leb, ◌==◌, arith,
}
use glass_os.Screen.{
  Screen, poke, write_cell, copy_up, blank_row, scroll_screen, scroll_window_content, vga_width,
  vga_height,
}

-- `t` is `s` but for bytes of the region.
pub record Draws (region : ℕ → Bool) (s t : Screen) : Type 0 where
  pub same_x : t.cursor_x ≡ s.cursor_x
  pub same_y : t.cursor_y ≡ s.cursor_y
  pub same_mode : t.window_mode ≡ s.window_mode
  pub same_color : t.current_color ≡ s.current_color
  pub outside : (i : ℕ) → region i ≡ false → t.video_memory i ≡ s.video_memory i

-- The bytes of the cells.
abbrev pub on_screen : ℕ → Bool
on_screen i = ltb i 4000

-- The bytes of columns 1 to 78 in rows 3 to 21.
abbrev pub in_pane : ℕ → Bool
in_pane i = leb 3 (i / 2 / 80) && leb (i / 2 / 80) 21 && leb 1 (i / 2 % 80) && leb (i / 2 % 80) 78

abbrev pub offset_of : ℕ → ℕ → ℕ
offset_of x y = (y * vga_width + x) * 2

pub on_screen-offset_of :
    (x y : ℕ)
    → x < 80
    → y < 25
    → (on_screen (offset_of x y) ≡ true) × (on_screen (offset_of x y + 1) ≡ true)
on_screen-offset_of x y hx hy = (ground arith, ground arith)

pub in_pane-offset_of :
    (x y : ℕ)
    → 1 ≤ x
    → x < 79
    → 3 ≤ y
    → y < 22
    → (in_pane (offset_of x y) ≡ true) × (in_pane (offset_of x y + 1) ≡ true)
in_pane-offset_of x y lx hx ly hy =
    let row : offset_of x y / 2 / 80 ≡ y = omega arith in
    let col : offset_of x y / 2 % 80 ≡ x = omega arith in
    let row' : (offset_of x y + 1) / 2 / 80 ≡ y = omega arith in
    let col' : (offset_of x y + 1) / 2 % 80 ≡ x = omega arith in
    (ground (arith, row, col), ground (arith, row', col'))

module _ (region : ℕ → Bool) where
  pub Draws-refl : (s : Screen) → Draws region s s
  Draws-refl s = record {
    same_x = refl;
    same_y = refl;
    same_mode = refl;
    same_color = refl;
    outside = λ i h. refl;
  }

  pub Draws-trans : {s t u : Screen} → Draws region s t → Draws region t u → Draws region s u
  Draws-trans a b = record {
    same_x = b.same_x ∙ a.same_x;
    same_y = b.same_y ∙ a.same_y;
    same_mode = b.same_mode ∙ a.same_mode;
    same_color = b.same_color ∙ a.same_color;
    outside = λ i h. b.outside i h ∙ a.outside i h;
  }

  poke_outside :
      (index value i : ℕ) (f : ℕ → ℕ)
      → region index ≡ true
      → region i ≡ false
      → poke index value f i ≡ f i
  poke_outside index value i f inside out = elim (Bool-cases (i == index)) [
    | inl e ↦ (let same : i ≡ index = ground arith in absurd (different (rw same at out)))
    | inr e ↦ rw e refl
  ]
    where
      different : region index ≡ false → ⊥
      different h = ground (arith, h, inside)

  two_pokes_outside :
      (index value value' i : ℕ) (f : ℕ → ℕ)
      → (region index ≡ true) × (region (index + 1) ≡ true)
      → region i ≡ false
      → poke (index + 1) value' (poke index value f) i ≡ f i
  two_pokes_outside index value value' i f inside out =
      poke_outside (index + 1) value' i (poke index value f) inside.1 out
      ∙ poke_outside index value i f inside.0 out

  pub write_cell-Draws :
      (x y c color : ℕ) (s : Screen)
      → (region (offset_of x y) ≡ true) × (region (offset_of x y + 1) ≡ true)
      → Draws region s (write_cell x y c color s)
  unfolding write_cell
  write_cell-Draws x y c color s inside = record {
    same_x = refl;
    same_y = refl;
    same_mode = refl;
    same_color = refl;
    outside = λ i h. two_pokes_outside (offset_of x y) c color i s.video_memory inside h;
  }

  copy_up-Draws :
      (y x : ℕ) (s : Screen)
      → (region (offset_of x (y - 1)) ≡ true) × (region (offset_of x (y - 1) + 1) ≡ true)
      → Draws region s (copy_up y x s)
  unfolding copy_up
  copy_up-Draws y x s inside = record {
    same_x = refl;
    same_y = refl;
    same_mode = refl;
    same_color = refl;
    outside = λ i h.
        two_pokes_outside (offset_of x (y - 1)) (s.video_memory (offset_of x y))
          (poke (offset_of x (y - 1)) (s.video_memory (offset_of x y)) s.video_memory
            (offset_of x y + 1))
          i s.video_memory inside h;
  }

  -- A loop whose rounds draw in the region draws in the region.
  pub for_range-Draws :
      (rounds start : ℕ) (body : ℕ → Screen → Screen) (s : Screen)
      → ((i : ℕ) (t : Screen) → start ≤ i → i < start + rounds → Draws region t (body i t))
      → Draws region s (for_range rounds start body s)
  for_range-Draws rounds start body s draws =
      for_range_keeps (λ t. Draws region s t) rounds start body s
        (λ i t low high h. Draws-trans h (draws i t low high)) (Draws-refl s)

  pub blank_row-Draws :
      (y start rounds : ℕ) (s : Screen)
      → ((x : ℕ)
          → start ≤ x
          → x < start + rounds
          → (region (offset_of x y) ≡ true) × (region (offset_of x y + 1) ≡ true))
      → Draws region s (blank_row y start rounds s)
  unfolding blank_row
  blank_row-Draws y start rounds s inside =
      for_range-Draws rounds start _ s
        (λ x t low high. write_cell-Draws x y b' ' t.current_color t (inside x low high))

-- scroll_screen writes on the screen only, and puts the cursor on the last row.
pub record Scrolled (region : ℕ → Bool) (x y : ℕ) (s t : Screen) : Type 0 where
  pub at_x : t.cursor_x ≡ x
  pub at_y : t.cursor_y ≡ y
  pub mode : t.window_mode ≡ s.window_mode
  pub outside : (i : ℕ) → region i ≡ false → t.video_memory i ≡ s.video_memory i

pub scroll_screen-Scrolled : (s : Screen) → Scrolled on_screen s.cursor_x 24 s (scroll_screen s)
unfolding scroll_screen
scroll_screen-Scrolled s =
    let moved = for_range 24 1 (λ y t. for_range vga_width 0 (copy_up y) t) s in
    let up : Draws on_screen s moved = for_range-Draws on_screen 24 1 _ s (λ y t low high.
      for_range-Draws on_screen vga_width 0 (copy_up y) t (λ x u low' high'.
        copy_up-Draws on_screen y x u
          (on_screen-offset_of x (y - 1) (omega arith) (omega arith)))) in
    let blank : Draws on_screen moved (blank_row (vga_height - 1) 0 vga_width moved) =
      blank_row-Draws on_screen (vga_height - 1) 0 vga_width moved
        (λ x low high. on_screen-offset_of x (vga_height - 1) (omega arith) (omega arith)) in
    let both = Draws-trans on_screen up blank in
    record { at_x = both.same_x; at_y = refl; mode = both.same_mode; outside = both.outside }

pub scroll_window_content-Scrolled :
    (s : Screen) → Scrolled in_pane 2 21 s (scroll_window_content s)
unfolding scroll_window_content
scroll_window_content-Scrolled s =
    let moved = for_range 18 4 (λ y t. for_range 78 1 (copy_up y) t) s in
    let up : Draws in_pane s moved = for_range-Draws in_pane 18 4 _ s (λ y t low high.
      for_range-Draws in_pane 78 1 (copy_up y) t (λ x u low' high'.
        copy_up-Draws in_pane y x u
          (in_pane-offset_of x (y - 1) (omega arith) (omega arith) (omega arith) (omega arith)))) in
    let blank : Draws in_pane moved (blank_row 21 1 78 moved) =
      blank_row-Draws in_pane 21 1 78 moved (λ x low high.
        in_pane-offset_of x 21 (omega arith) (omega arith) (omega arith) (omega arith)) in
    let both = Draws-trans in_pane up blank in
    record { at_x = refl; at_y = refl; mode = both.same_mode; outside = both.outside }
