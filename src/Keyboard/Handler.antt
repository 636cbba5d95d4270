-- ===== src/Keyboard/Handler.antt =====
-- keyboard_handler of kernel/keyboard.c keeps the line and the history within their arrays.
use glass_os.Prelude.{
  ℕ, ◌+◌, ◌-◌, ◌<◌, ◌≡◌, refl, sym, ◌∙◌, ◌⊎◌, Bool, true, false, ◌||◌, Bool-cases, none, some, inl,
  inr, ltb, leb, ◌==◌, arith, if◌then◌else◌, get_or,
}
use glass_os.Kernel.{Kernel, Keyboard}
use glass_os.Keyboard.Line.{keyboard-redraw_line, insert_character_lem}
use glass_os.Keyboard.Delete.{delete_character_lem}
use glass_os.Keyboard.Recall.{
  IsHistory, IsKeyboard, Good, history_up-Good, history_down-Good, moved-IsKeyboard, to_end-Good,
  to_start-Good, enter-Good,
}
use glass_os.Keyboard.{
  with_keyboard, inserted, insert_character, deleted, delete_character, cursor_left, cursor_right,
  backspace_character, line_capacity, kbd_us, shifted_key, extended_key, plain_key,
  keyboard_handler,
}

-- What an operation leaves of the history.
abbrev SameHistory : Keyboard → Keyboard → Type 0
SameHistory old new =
    (new.history_count ≡ old.history_count)
    × (new.history_next ≡ old.history_next)
    × ((new.history_cursor ≡ none) ⊎ (new.history_cursor ≡ old.history_cursor))

same-IsHistory : (old new : Keyboard) → SameHistory old new → IsHistory old → IsHistory new
same-IsHistory old new (count, next, cursor) v = record {
  few = omega (arith, count, v.few);
  slot = omega (arith, next, v.slot);
  place = λ c h. elim cursor [
    | inl gone ↦ absurd (none-ne-some (sym gone ∙ h))
    | inr kept ↦ (let low = v.place c (sym kept ∙ h) in omega (arith, count, low))
  ];
}
  where
    none-ne-some : {c : ℕ} → none ≡ some c → ⊥
    none-ne-some h = cc

module _ (k : Kernel) where
  insert-SameHistory : (key : ℕ) → SameHistory k.keyboard (insert_character key k).keyboard
  unfolding insert_character
  insert-SameHistory key = elim (Bool-cases (leb (line_capacity - 1) k.keyboard.buffer_idx)) [
    | inl h ↦ rw h (refl, refl, inr refl)
    | inr h ↦ rw (h, keyboard-redraw_line (with_keyboard (inserted key) k)) (refl, refl, inl refl)
  ]

  delete-SameHistory : SameHistory k.keyboard (delete_character k).keyboard
  unfolding delete_character
  delete-SameHistory = elim (Bool-cases (leb k.keyboard.buffer_idx k.keyboard.edit_cursor)) [
    | inl h ↦ rw h (refl, refl, inr refl)
    | inr h ↦ rw (h, keyboard-redraw_line (with_keyboard deleted k)) (refl, refl, inl refl)
  ]

  insert_character-Good : (key : ℕ) → Good k → Good (insert_character key k)
  insert_character-Good key v = (
    elim (insert_character_lem key k v.0) [
      | inl (full, same) ↦ rw same v.0
      | inr (room, before, after, line) ↦ line
    ],
    same-IsHistory k.keyboard (insert_character key k).keyboard (insert-SameHistory key) v.1,
  )

  delete_character-Good : Good k → Good (delete_character k)
  delete_character-Good v = (
    elim (delete_character_lem k v.0) [
      | inl (at_end, same) ↦ rw same v.0
      | inr (before, after, line) ↦ line
    ],
    same-IsHistory k.keyboard (delete_character k).keyboard delete-SameHistory v.1,
  )

  cursor_left-Good : Good k → Good (cursor_left k)
  unfolding cursor_left
  cursor_left-Good v =
      moved-IsKeyboard k.keyboard (k.keyboard.edit_cursor - 1) (omega (arith, v.0.on_line)) v

  cursor_right-Good :
      k.keyboard.edit_cursor < k.keyboard.buffer_idx → Good k → Good (cursor_right k)
  unfolding cursor_right
  cursor_right-Good h v =
      moved-IsKeyboard k.keyboard (k.keyboard.edit_cursor + 1) (omega (arith, h)) v

backspace_character-Good : (k : Kernel) → Good k → Good (backspace_character k)
unfolding backspace_character
backspace_character-Good k v = elim (Bool-cases (k.keyboard.edit_cursor == 0)) [
  | inl h ↦ rw h v
  | inr h ↦ rw h (delete_character-Good (cursor_left k) (cursor_left-Good k v))
]

-- One of two states, both in order.
if-Good : (b : Bool) (k k' : Kernel) → Good k → Good k' → Good (if b then k else k')
if-Good true k k' v v' = v
if-Good false k k' v v' = v'

extended_key-Good : (scancode : ℕ) (k : Kernel) → Good k → Good (extended_key scancode k)
unfolding extended_key
extended_key-Good scancode k v =
    if-Good (scancode == 0x4B) _ _
      (if-Good (ltb 0 k.keyboard.edit_cursor) _ _ (cursor_left-Good k v) v)
      (if-Good (scancode == 0x4D) _ _ right (
        if-Good (scancode == 0x47) _ _ (to_start-Good k v) (
          if-Good (scancode == 0x4F) _ _ (to_end-Good k v) (
            if-Good (scancode == 0x48) _ _ (history_up-Good k v) (
              if-Good (scancode == 0x50) _ _ (history_down-Good k v)
                (if-Good (scancode == 0x53) _ _ (delete_character-Good k v) v))))))
  where
    right : Good (if ltb k.keyboard.edit_cursor k.keyboard.buffer_idx then cursor_right k else k)
    right = elim (Bool-cases (ltb k.keyboard.edit_cursor k.keyboard.buffer_idx)) [
      | inl h ↦ rw h (cursor_right-Good k (ground (arith, h)) v)
      | inr h ↦ rw h v
    ]

plain_key-Good : (scancode : ℕ) (k : Kernel) → Good k → Good (plain_key scancode k)
unfolding plain_key
plain_key-Good scancode k v =
    let plain = get_or kbd_us scancode 0 in
    let key = if k.keyboard.shift_pressed then shifted_key plain else plain in
    if-Good (key == 10) _ _ (enter-Good k v) (
      if-Good (key == 8) _ _ (backspace_character-Good k v)
        (if-Good (key == 0) _ _ v (insert_character-Good k key v)))

with_flags :
    (k : Kernel) (extended shift : Bool)
    → Good k
    → Good
        (with_keyboard (λ kb. record kb { extended_scancode = extended; shift_pressed = shift }) k)
with_flags k extended shift v = (
  record { on_line = v.0.on_line; in_buffer = v.0.in_buffer; ended = v.0.ended },
  record { few = v.1.few; slot = v.1.slot; place = v.1.place },
)

-- keyboard_handler keeps, for every scancode, that the cursor is on the line, the line with its NUL
-- within the 128 bytes of the buffer, the history within its eight lines, and the place in the
-- history one of the lines that it holds.
pub keyboard_handler-IsKeyboard :
    (scancode : ℕ) (k : Kernel)
    → IsKeyboard k.keyboard
    → IsKeyboard (keyboard_handler scancode k).keyboard
unfolding keyboard_handler
keyboard_handler-IsKeyboard scancode k v =
    if-Good (scancode == 0xE0) _ _ (with_flags k true k.keyboard.shift_pressed v) (
      if-Good (scancode == 0x2A || scancode == 0x36) _ _
        (with_flags k k.keyboard.extended_scancode true v)
        (if-Good (scancode == 0xAA || scancode == 0xB6) _ _
          (with_flags k k.keyboard.extended_scancode false v)
          (with_flags handled false handled.keyboard.shift_pressed (
            if-Good (leb 0x80 scancode || k.keyboard.command_ready) _ _ v (
              if-Good k.keyboard.extended_scancode _ _ (extended_key-Good scancode k v)
                (plain_key-Good scancode k v))))))
  where
    handled : Kernel
    handled =
        if leb 0x80 scancode || k.keyboard.command_ready
        then k
        else if k.keyboard.extended_scancode
        then extended_key scancode k
        else plain_key scancode k
