-- ===== src/Keyboard/Line.antt =====
-- The line of kernel/keyboard.c as the text before the cursor and the text behind it, and
-- insert_character.
use glass_os.Prelude.{
  ℕ, ◌+◌, ◌-◌, ◌≤◌, ◌<◌, ◌≡◌, refl, ap, ap₂, ◌∙◌, true, false, Bool-cases, inl, inr, [], ◌∷◌, ◌++◌,
  ◌⊎◌, for_range, for_range_keeps, ltb, leb, ◌==◌, arith, if◌then◌else◌,
}
use glass_os.Text.{Text}
use glass_os.Kernel.{Kernel, Keyboard}
use glass_os.Console.{print_char}
use glass_os.Keyboard.Arrays.{slice, slice-append, slice-cong, shift_right_lem}
use glass_os.Keyboard.{
  redraw_line, with_keyboard, screen_left, screen_right, screen_backspace, inserted,
  insert_character, line_capacity,
}

-- The text before the cursor, and the text from the cursor on.
abbrev pub before_cursor : Keyboard → Text
before_cursor kb = slice kb.kbd_buffer 0 kb.edit_cursor

abbrev pub after_cursor : Keyboard → Text
after_cursor kb = slice kb.kbd_buffer kb.edit_cursor (kb.buffer_idx - kb.edit_cursor)

-- The cursor lies on the line, and the line, with its NUL, within the buffer.
pub record IsLine (kb : Keyboard) : Type 0 where
  pub on_line : kb.edit_cursor ≤ kb.buffer_idx
  pub in_buffer : kb.buffer_idx ≤ 127
  pub ended : kb.kbd_buffer kb.buffer_idx ≡ 0

abbrev set_rendered : ℕ → Keyboard → Keyboard
set_rendered n kb = record kb { rendered_length = n }

abbrev pub rendered : Keyboard → Keyboard
rendered kb = record kb { rendered_length = kb.buffer_idx }

pub keyboard-print_char : (c : ℕ) (k : Kernel) → (print_char c k).keyboard ≡ k.keyboard
unfolding print_char
keyboard-print_char c k = refl

-- A loop of screen calls and prints leaves the line alone.
keyboard-for_range :
    (rounds start : ℕ) (body : ℕ → Kernel → Kernel) (k : Kernel)
    → ((i : ℕ) (t : Kernel) → (body i t).keyboard ≡ t.keyboard)
    → (for_range rounds start body k).keyboard ≡ k.keyboard
keyboard-for_range rounds start body k same =
    for_range_keeps (λ t. t.keyboard ≡ k.keyboard) rounds start body k
      (λ i t low high h. same i t ∙ h) refl

-- redraw_line changes no more of the keyboard's state than rendered_length.
pub keyboard-redraw_line : (k : Kernel) → (redraw_line k).keyboard ≡ rendered k.keyboard
unfolding redraw_line
keyboard-redraw_line k =
    let kb = k.keyboard in
    let at_end =
      for_range (kb.rendered_length - kb.edit_cursor) kb.edit_cursor (λ i t. screen_right t) k in
    let empty = for_range kb.rendered_length 0 (λ i t. screen_backspace t) at_end in
    let printed = for_range kb.buffer_idx 0 (λ i t. print_char (kb.kbd_buffer i) t) empty in
    let shown = with_keyboard (λ x. record x { rendered_length = kb.buffer_idx }) printed in
    keyboard-for_range (kb.buffer_idx - kb.edit_cursor) kb.edit_cursor (λ i t. screen_left t) shown
      (λ i t. refl)
    ∙ ap (set_rendered kb.buffer_idx) (
        keyboard-for_range kb.buffer_idx 0 (λ i t. print_char (kb.kbd_buffer i) t) empty
          (λ i t. keyboard-print_char (kb.kbd_buffer i) t)
        ∙ (keyboard-for_range kb.rendered_length 0 (λ i t. screen_backspace t) at_end (λ i t. refl)
            ∙ keyboard-for_range (kb.rendered_length - kb.edit_cursor) kb.edit_cursor
                (λ i t. screen_right t) k (λ i t. refl)))

module _ (key : ℕ) (k : Kernel) (v : IsLine k.keyboard) where
  abbrev kb : Keyboard
  kb = k.keyboard

  abbrev new : Keyboard
  new = inserted key kb

  inserted_at :
      (j : ℕ)
      → new.kbd_buffer j ≡ (
          if ltb j kb.edit_cursor
          then kb.kbd_buffer j
          else if j == kb.edit_cursor
          then key
          else if leb j kb.buffer_idx
          then kb.kbd_buffer (j - 1)
          else if j == kb.buffer_idx + 1
          then 0
          else kb.kbd_buffer j)
  inserted_at j = ground (
    arith,
    v.on_line,
    shift_right_lem (kb.buffer_idx - kb.edit_cursor) kb.buffer_idx kb.kbd_buffer j
        (omega (arith, v.on_line)),
  )

  inserted_before : before_cursor new ≡ before_cursor kb ++ key ∷ []
  unfolding slice
  inserted_before =
      slice-append new.kbd_buffer 0 kb.edit_cursor 1
      ∙ ap₂ (λ xs x. xs ++ x ∷ [])
          (slice-cong new.kbd_buffer kb.kbd_buffer 0 0 kb.edit_cursor
            (λ j low. let e : 0 + j ≡ j = omega arith in rw e (ground (arith, inserted_at j, low))))
          (let e : 0 + kb.edit_cursor ≡ kb.edit_cursor = omega arith in
            rw e (ground (arith, inserted_at kb.edit_cursor)))

  inserted_after : after_cursor new ≡ after_cursor kb
  inserted_after =
      let same : kb.buffer_idx + 1 - (kb.edit_cursor + 1) ≡ kb.buffer_idx - kb.edit_cursor =
        omega (arith, v.on_line) in
      rw same (
        slice-cong new.kbd_buffer kb.kbd_buffer (kb.edit_cursor + 1) kb.edit_cursor
          (kb.buffer_idx - kb.edit_cursor)
          (λ j low.
            let e : kb.edit_cursor + 1 + j - 1 ≡ kb.edit_cursor + j = omega arith in
            ground (arith, inserted_at (kb.edit_cursor + 1 + j), low, e, v.on_line)))

  full : leb (line_capacity - 1) kb.buffer_idx ≡ true → insert_character key k ≡ k
  unfolding insert_character
  full h = rw h refl

  room :
      leb (line_capacity - 1) kb.buffer_idx ≡ false
      → (insert_character key k).keyboard ≡ rendered new
  unfolding insert_character
  room h = rw h (keyboard-redraw_line (with_keyboard (inserted key) k))

-- On a line in order, insert_character changes nothing if the line is full, and else puts the key
-- between the text before the cursor and the text from the cursor on, moves the cursor behind it,
-- and keeps the line in order.
pub insert_character_lem :
    (key : ℕ) (k : Kernel)
    → IsLine k.keyboard
    → let k' = insert_character key k in
      ((k.keyboard.buffer_idx ≡ 127) × (k' ≡ k))
      ⊎ ((k.keyboard.buffer_idx < 127)
          × (before_cursor k'.keyboard ≡ before_cursor k.keyboard ++ key ∷ [])
          × (after_cursor k'.keyboard ≡ after_cursor k.keyboard)
          × IsLine k'.keyboard)
insert_character_lem key k v = elim (Bool-cases (leb (line_capacity - 1) k.keyboard.buffer_idx)) [
  | inl h ↦ inl (ground (arith, h, v.in_buffer), full key k v h)
  | inr h ↦ inr (
    ground (arith, h),
    rw (room key k v h) (inserted_before key k v),
    rw (room key k v h) (inserted_after key k v),
    rw (room key k v h) (record {
      on_line = omega (arith, v.on_line);
      in_buffer = ground (arith, h);
      ended = ground (arith, inserted_at key k v (k.keyboard.buffer_idx + 1), v.on_line);
    }),
  )
]
