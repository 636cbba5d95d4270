-- ===== src/Keyboard/Recall.antt =====
-- The history and the moves of the cursor of kernel/keyboard.c.
use glass_os.Prelude.{
  ℕ, zero, suc, ◌+◌, ◌-◌, ◌≤◌, ◌<◌, ◌≡◌, refl, false, Bool-cases, Option, none, some, inl, inr,
  for_range, ltb, ◌==◌, arith,
}
use glass_os.Kernel.{Kernel, Keyboard}
use glass_os.Screen.{poke}
use glass_os.Keyboard.Arrays.{copy_line_from_end, line_length_from_lem}
use glass_os.Keyboard.Line.{IsLine, keyboard-redraw_line, keyboard-print_char}
use glass_os.Keyboard.{
  with_keyboard, redraw_line, copy_line, replaced, replace_line, remember_command, point_at,
  point_up, recalled, history_up, history_down, history_down_from, cursor_left, cursor_right,
  to_end, to_start, enter,
}

-- The history holds at most eight lines, and the place in it is one of them.
pub record IsHistory (kb : Keyboard) : Type 0 where
  pub few : kb.history_count ≤ 8
  pub slot : kb.history_next < 8
  pub place : (c : ℕ) → kb.history_cursor ≡ some c → c < kb.history_count

abbrev pub IsKeyboard : Keyboard → Type 0
IsKeyboard kb = IsLine kb × IsHistory kb

abbrev pub Good : Kernel → Type 0
Good k = IsKeyboard k.keyboard

pub redraw_line-Good : (k : Kernel) → Good k → Good (redraw_line k)
redraw_line-Good k v = rw keyboard-redraw_line (
  record { on_line = v.0.on_line; in_buffer = v.0.in_buffer; ended = v.0.ended },
  record { few = v.1.few; slot = v.1.slot; place = v.1.place },
)

replaced-IsLine : (line : ℕ → ℕ) (kb : Keyboard) → IsLine (replaced line kb)
replaced-IsLine line kb =
    let length =
      line_length_from_lem 127 0 (copy_line kb.kbd_buffer line)
        (copy_line_from_end 127 0 kb.kbd_buffer line) in
    record { on_line = omega arith; in_buffer = length.0; ended = length.1 }

-- Only the history has to be in order for replace_line.
replace_line-Good : (line : ℕ → ℕ) (k : Kernel) → IsHistory k.keyboard → Good (replace_line line k)
unfolding replace_line
replace_line-Good line k v =
    redraw_line-Good (with_keyboard (replaced line) k)
      (replaced-IsLine line k.keyboard, record { few = v.few; slot = v.slot; place = v.place })

point_up-IsHistory :
    (cursor : Option ℕ) (kb : Keyboard)
    → (kb.history_count == 0) ≡ false
    → ((c : ℕ) → cursor ≡ some c → c < kb.history_count)
    → IsHistory kb
    → IsHistory (point_up cursor kb)
unfolding point_up
point_up-IsHistory none kb some_line place v = record {
  few = v.few;
  slot = v.slot;
  place = λ c h. ground (arith, h, some_line);
}
point_up-IsHistory (some d) kb some_line place v = elim (Bool-cases (ltb 0 d)) [
  | inl h ↦
      let low = place d refl in
      rw h (record { few = v.few; slot = v.slot; place = λ c h'. ground (arith, h', low, h) })
  | inr h ↦ rw h v
]

pub history_up-Good : (k : Kernel) → Good k → Good (history_up k)
unfolding history_up
history_up-Good k v = elim (Bool-cases (k.keyboard.history_count == 0)) [
  | inl h ↦ rw h v
  | inr h ↦
      let pointed = point_up k.keyboard.history_cursor k.keyboard in
      rw h (
        replace_line-Good (recalled pointed.history_cursor pointed)
          (with_keyboard (λ kb. pointed) k)
          (point_up-IsHistory k.keyboard.history_cursor k.keyboard h v.1.place v.1))
]

history_down_from-Good :
    (cursor : Option ℕ) (k : Kernel)
    → ((c : ℕ) → cursor ≡ some c → c < k.keyboard.history_count)
    → Good k
    → Good (history_down_from cursor k)
unfolding history_down_from
history_down_from-Good none k place v = v
history_down_from-Good (some d) k place v =
    elim (Bool-cases (ltb d (k.keyboard.history_count - 1))) [
      | inl h ↦
          let pointed = point_at (some (d + 1)) k.keyboard in
          rw h (
            replace_line-Good (recalled (some (d + 1)) pointed) (with_keyboard (λ kb. pointed) k)
              (record { few = v.1.few; slot = v.1.slot; place = λ c h'. ground (arith, h', h) }))
      | inr h ↦ rw h (
          replace_line-Good k.keyboard.saved_line (with_keyboard (point_at none) k)
            (record { few = v.1.few; slot = v.1.slot; place = λ c h'. cc }))
    ]

pub history_down-Good : (k : Kernel) → Good k → Good (history_down k)
unfolding history_down
history_down-Good k v = history_down_from-Good k.keyboard.history_cursor k v.1.place v

cursor_right-lem :
    (n start : ℕ) (k : Kernel)
    → (for_range n start (λ i t. cursor_right t) k).keyboard
      ≡ record k.keyboard { edit_cursor = k.keyboard.edit_cursor + n }
unfolding cursor_right for_range
cursor_right-lem zero start k =
    let e : k.keyboard.edit_cursor + 0 ≡ k.keyboard.edit_cursor = omega arith in rw e refl
cursor_right-lem (suc n) start k =
    let e : k.keyboard.edit_cursor + suc n ≡ k.keyboard.edit_cursor + 1 + n = omega arith in
    rw e (cursor_right-lem n (start + 1) (cursor_right k))

cursor_left-lem :
    (n start : ℕ) (k : Kernel)
    → (for_range n start (λ i t. cursor_left t) k).keyboard
      ≡ record k.keyboard { edit_cursor = k.keyboard.edit_cursor - n }
unfolding cursor_left for_range
cursor_left-lem zero start k =
    let e : k.keyboard.edit_cursor - 0 ≡ k.keyboard.edit_cursor = omega arith in rw e refl
cursor_left-lem (suc n) start k =
    let e : k.keyboard.edit_cursor - suc n ≡ k.keyboard.edit_cursor - 1 - n = omega arith in
    rw e (cursor_left-lem n (start + 1) (cursor_left k))

pub to_end-lem :
    (k : Kernel)
    → Good k
    → (to_end k).keyboard ≡ record k.keyboard { edit_cursor = k.keyboard.buffer_idx }
unfolding to_end
to_end-lem k v =
    let e : k.keyboard.edit_cursor + (k.keyboard.buffer_idx - k.keyboard.edit_cursor)
        ≡ k.keyboard.buffer_idx =
      omega (arith, v.0.on_line) in
    rw e at (cursor_right-lem (k.keyboard.buffer_idx - k.keyboard.edit_cursor) 0 k)

-- A cursor moved along the line.
pub moved-IsKeyboard :
    (kb : Keyboard) (c : ℕ)
    → c ≤ kb.buffer_idx
    → IsKeyboard kb
    → IsKeyboard (record kb { edit_cursor = c })
moved-IsKeyboard kb c h v = (
  record { on_line = h; in_buffer = v.0.in_buffer; ended = v.0.ended },
  record { few = v.1.few; slot = v.1.slot; place = v.1.place },
)

pub to_end-Good : (k : Kernel) → Good k → Good (to_end k)
to_end-Good k v =
    rw (to_end-lem k v) (moved-IsKeyboard k.keyboard k.keyboard.buffer_idx (omega arith) v)

pub to_start-Good : (k : Kernel) → Good k → Good (to_start k)
unfolding to_start
to_start-Good k v =
    rw (cursor_left-lem k.keyboard.edit_cursor 0 k) (
      moved-IsKeyboard k.keyboard (k.keyboard.edit_cursor - k.keyboard.edit_cursor) (omega arith) v)

remembered : (kb : Keyboard) → IsKeyboard kb → IsKeyboard (remember_command kb)
unfolding remember_command
remembered kb v = elim (Bool-cases (kb.buffer_idx == 0)) [
  | inl h ↦ rw h v
  | inr h ↦ rw h (
    record { on_line = v.0.on_line; in_buffer = v.0.in_buffer; ended = v.0.ended },
    record {
      few = ground (arith, v.1.few);
      slot = omega arith;
      place = λ c h'. (let low = v.1.place c h' in ground (arith, low));
    },
  )
]

pub enter-Good : (k : Kernel) → Good k → Good (enter k)
unfolding enter
enter-Good k v =
    let t = to_end k in
    let w = to_end-Good k v in
    let nul : Keyboard = record t.keyboard {
      kbd_buffer = poke t.keyboard.buffer_idx 0 t.keyboard.kbd_buffer;
    } in
    let done = remembered nul (
      record { on_line = w.0.on_line; in_buffer = w.0.in_buffer; ended = ground arith },
      record { few = w.1.few; slot = w.1.slot; place = w.1.place },
    ) in
    rw keyboard-print_char (
      record { on_line = done.0.on_line; in_buffer = done.0.in_buffer; ended = done.0.ended },
      record { few = done.1.few; slot = done.1.slot; place = done.1.place },
    )
