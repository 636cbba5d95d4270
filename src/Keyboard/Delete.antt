-- ===== src/Keyboard/Delete.antt =====
-- delete_character and backspace_character of kernel/keyboard.c on the text before the cursor and
-- the text behind it.
use glass_os.Prelude.{
  ℕ, suc, ◌+◌, ◌-◌, ◌<◌, ◌≡◌, refl, ap, sym, ◌∙◌, false, ◌&&◌, Bool-cases, inl, inr, [], ◌∷◌, ◌++◌,
  drop, ◌⊎◌, ltb, leb, ◌==◌, arith, if◌then◌else◌,
}
use glass_os.Kernel.{Kernel, Keyboard}
use glass_os.Keyboard.Arrays.{slice, slice-append, slice-cong, shift_left_lem}
use glass_os.Keyboard.Line.{IsLine, before_cursor, after_cursor, rendered, keyboard-redraw_line}
use glass_os.Keyboard.{with_keyboard, deleted, delete_character, cursor_left, backspace_character}

module _ (k : Kernel) (v : IsLine k.keyboard)
    (h : k.keyboard.edit_cursor < k.keyboard.buffer_idx) where
  abbrev old : Keyboard
  old = k.keyboard

  abbrev last : ℕ
  last = old.buffer_idx - 1

  deleted_at :
      (j : ℕ)
      → (deleted old).kbd_buffer j ≡ (
          if j == last
          then 0
          else if leb old.edit_cursor j && ltb j last
          then old.kbd_buffer (j + 1)
          else old.kbd_buffer j)
  deleted_at j =
      ground (arith, h, shift_left_lem (last - old.edit_cursor) old.edit_cursor old.kbd_buffer j)

  deleted_before : before_cursor (deleted old) ≡ before_cursor old
  deleted_before =
      slice-cong (deleted old).kbd_buffer old.kbd_buffer 0 0 old.edit_cursor
        (λ j low. let e : 0 + j ≡ j = omega arith in rw e (ground (arith, deleted_at j, low, h)))

  deleted_after : after_cursor old ≡ old.kbd_buffer old.edit_cursor ∷ after_cursor (deleted old)
  unfolding slice
  deleted_after =
      let split : old.buffer_idx - old.edit_cursor ≡ suc (last - old.edit_cursor) =
        omega (arith, h) in
      rw split (
        ap (λ r. old.kbd_buffer old.edit_cursor ∷ r)
          (slice-cong old.kbd_buffer (deleted old).kbd_buffer (old.edit_cursor + 1) old.edit_cursor
            (last - old.edit_cursor)
            (λ j low.
              let e : old.edit_cursor + 1 + j ≡ old.edit_cursor + j + 1 = omega arith in
              rw e (ground (arith, deleted_at (old.edit_cursor + j), low)))))

  delete_some : (delete_character k).keyboard ≡ rendered (deleted old)
  unfolding delete_character
  delete_some =
      let some_text : leb old.buffer_idx old.edit_cursor ≡ false = ground (arith, h) in
      rw some_text (keyboard-redraw_line (with_keyboard deleted k))

  deleted-IsLine : IsLine (rendered (deleted old))
  deleted-IsLine = record {
    on_line = omega (arith, h);
    in_buffer = omega (arith, v.in_buffer);
    ended = ground (arith, deleted_at last);
  }

-- On a line in order, delete_character changes nothing at the end of the line, and else takes the
-- character at the cursor out, keeps the text before the cursor, and keeps the line in order.
pub delete_character_lem :
    (k : Kernel)
    → IsLine k.keyboard
    → let k' = delete_character k in
      ((k.keyboard.edit_cursor ≡ k.keyboard.buffer_idx) × (k' ≡ k))
      ⊎ ((before_cursor k'.keyboard ≡ before_cursor k.keyboard)
          × ((c : ℕ) × (after_cursor k.keyboard ≡ c ∷ after_cursor k'.keyboard))
          × IsLine k'.keyboard)
unfolding delete_character
delete_character_lem k v = elim (Bool-cases (leb k.keyboard.buffer_idx k.keyboard.edit_cursor)) [
  | inl h ↦ inl (ground (arith, h, v.on_line), rw h refl)
  | inr h ↦
      let inside : k.keyboard.edit_cursor < k.keyboard.buffer_idx = ground (arith, h) in
      inr (
        rw (delete_some k v inside) (deleted_before k v inside),
        (
          k.keyboard.kbd_buffer k.keyboard.edit_cursor,
          rw (delete_some k v inside) (deleted_after k v inside),
        ),
        rw (delete_some k v inside) (deleted-IsLine k v inside),
      )
]

module _ (k : Kernel) (v : IsLine k.keyboard) (h : (k.keyboard.edit_cursor == 0) ≡ false) where
  abbrev stepped : Kernel
  stepped = cursor_left k

  stepped-IsLine : IsLine stepped.keyboard
  unfolding cursor_left
  stepped-IsLine = record {
    on_line = omega (arith, v.on_line);
    in_buffer = v.in_buffer;
    ended = v.ended;
  }

  stepped_inside : stepped.keyboard.edit_cursor < stepped.keyboard.buffer_idx
  unfolding cursor_left
  stepped_inside = ground (arith, v.on_line, h)

  stepped_before :
      before_cursor k.keyboard
      ≡ before_cursor stepped.keyboard ++ k.keyboard.kbd_buffer (k.keyboard.edit_cursor - 1) ∷ []
  unfolding cursor_left slice
  stepped_before =
      let split : k.keyboard.edit_cursor ≡ k.keyboard.edit_cursor - 1 + 1 = ground (arith, h) in
      let e : 0 + (k.keyboard.edit_cursor - 1) ≡ k.keyboard.edit_cursor - 1 = omega arith in
      ap (slice k.keyboard.kbd_buffer 0) split
      ∙ rw e at (slice-append k.keyboard.kbd_buffer 0 (k.keyboard.edit_cursor - 1) 1)

  stepped_after :
      after_cursor stepped.keyboard
      ≡ k.keyboard.kbd_buffer (k.keyboard.edit_cursor - 1) ∷ after_cursor k.keyboard
  unfolding cursor_left slice
  stepped_after =
      let split : k.keyboard.buffer_idx - (k.keyboard.edit_cursor - 1)
          ≡ suc (k.keyboard.buffer_idx - k.keyboard.edit_cursor) =
        ground (arith, v.on_line, h) in
      let e : k.keyboard.edit_cursor - 1 + 1 ≡ k.keyboard.edit_cursor = ground (arith, h) in
      rw (split, e) refl

  backspaced : (backspace_character k).keyboard ≡ rendered (deleted stepped.keyboard)
  unfolding backspace_character
  backspaced = rw h (delete_some stepped stepped-IsLine stepped_inside)

  backspaced_before : before_cursor (deleted stepped.keyboard) ≡ before_cursor stepped.keyboard
  backspaced_before = deleted_before stepped stepped-IsLine stepped_inside

  backspaced_after : after_cursor (deleted stepped.keyboard) ≡ after_cursor k.keyboard
  backspaced_after =
      ap (drop 1) (sym (deleted_after stepped stepped-IsLine stepped_inside) ∙ stepped_after)

-- On a line in order, backspace_character changes nothing at the start of the line, and else takes
-- the character before the cursor out, keeps the text from the cursor on, and keeps the line in
-- order.
pub backspace_character_lem :
    (k : Kernel)
    → IsLine k.keyboard
    → let k' = backspace_character k in
      ((k.keyboard.edit_cursor ≡ 0) × (k' ≡ k))
      ⊎ (((c : ℕ) × (before_cursor k.keyboard ≡ before_cursor k'.keyboard ++ c ∷ []))
          × (after_cursor k'.keyboard ≡ after_cursor k.keyboard)
          × IsLine k'.keyboard)
unfolding backspace_character
backspace_character_lem k v = elim (Bool-cases (k.keyboard.edit_cursor == 0)) [
  | inl h ↦ inl (ground (arith, h), rw h refl)
  | inr h ↦
      let c = k.keyboard.kbd_buffer (k.keyboard.edit_cursor - 1) in
      inr (
        (
          c,
          stepped_before k v h
              ∙ rw (backspaced k v h) (ap (λ xs. xs ++ c ∷ []) (sym (backspaced_before k v h))),
        ),
        rw (backspaced k v h) (backspaced_after k v h),
        rw (backspaced k v h)
            (deleted-IsLine (stepped k v h) (stepped-IsLine k v h) (stepped_inside k v h)),
      )
]
