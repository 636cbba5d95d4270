-- ===== src/Keyboard/History.antt =====
-- The history of kernel/keyboard.c gives back the line that was entered last.
use glass_os.Prelude.{
  ℕ, zero, suc, ◌+◌, ◌-◌, ◌%◌, ◌≤◌, ◌<◌, ◌≡◌, ◌≢◌, refl, ap, sym, ◌∙◌, true, false, Bool-cases, inl,
  inr, Option, none, ltb, ◌==◌, arith, if◌then◌else◌,
}
use glass_os.Kernel.{Kernel, Keyboard}
use glass_os.Screen.{poke}
use glass_os.Keyboard.Arrays.{slice, slice-cong}
use glass_os.Keyboard.Line.{before_cursor, keyboard-redraw_line, keyboard-print_char}
use glass_os.Keyboard.Recall.{IsKeyboard, to_end-lem}
use glass_os.Keyboard.{
  copy_line_from, copy_line, line_length_from, line_length, with_keyboard, replaced, replace_line,
  history_slot, write_slot, remember_command, point_up, recalled, history_up, enter,
  keyboard_begin_line,
}

-- The first NUL of a line stands at `n`, behind index `i`.
abbrev FirstNul : ℕ → ℕ → (ℕ → ℕ) → Type 0
FirstNul i n f = (f n ≡ 0) × ((j : ℕ) → i ≤ j → j < n → f j ≢ 0)

copy_line_from_lem :
    (room i n : ℕ) (d s : ℕ → ℕ) (j : ℕ)
    → i ≤ n
    → n ≤ i + room
    → FirstNul i n s
    → j ≤ n
    → copy_line_from room i d s j ≡ (if ltb j i then d j else if ltb j n then s j else 0)
unfolding copy_line_from
copy_line_from_lem zero i n d s j low high nul le = ground arith
copy_line_from_lem (suc room) i n d s j low high nul le = elim (Bool-cases (s i == 0)) [
  | inl h ↦
      let at_i : n ≡ i = elim (Bool-cases (ltb i n)) [
        | inl lt ↦ absurd (nul.1 i (omega arith) (ground (arith, lt)) (ground (arith, h)))
        | inr ge ↦ ground (arith, ge)
      ] in
      rw h (ground (arith, at_i))
  | inr h ↦
      let apart : n ≢ i =
        λ e. (let here : s i ≡ 0 = rw e at nul.0 in absurd (ground (arith, here, h))) in
      rw h (
        copy_line_from_lem room (i + 1) n (poke i (s i) d) s j (omega (arith, apart)) (omega arith)
          (nul.0, λ x lo hi. nul.1 x (omega arith) hi) le
        ∙ ground (arith, apart))
]

line_length_from_exact :
    (room i n : ℕ) (f : ℕ → ℕ)
    → i ≤ n
    → n ≤ i + room
    → FirstNul i n f
    → line_length_from room i f ≡ n
unfolding line_length_from
line_length_from_exact zero i n f low high nul = omega arith
line_length_from_exact (suc room) i n f low high nul = elim (Bool-cases (f i == 0)) [
  | inl h ↦
      let at_i : i ≡ n = elim (Bool-cases (ltb i n)) [
        | inl lt ↦ absurd (nul.1 i (omega arith) (ground (arith, lt)) (ground (arith, h)))
        | inr ge ↦ ground (arith, ge)
      ] in
      rw h at_i
  | inr h ↦
      let apart : n ≢ i =
        λ e. (let here : f i ≡ 0 = rw e at nul.0 in absurd (ground (arith, here, h))) in
      rw h (
        line_length_from_exact room (i + 1) n f (omega (arith, apart)) (omega arith)
          (nul.0, λ x lo hi. nul.1 x (omega arith) hi))
]

-- A copy of a line reads as the line.
copy_line_at :
    (n : ℕ) (d s : ℕ → ℕ) (j : ℕ) → n ≤ 127 → FirstNul 0 n s → j ≤ n → copy_line d s j ≡ s j
copy_line_at n d s j short nul le =
    copy_line_from_lem 127 0 n d s j (omega arith) (omega arith) nul le
    ∙ elim (Bool-cases (ltb j n)) [
      | inl h ↦ (let past : ltb j 0 ≡ false = ground arith in rw (past, h) refl)
      | inr h ↦
          let past : ltb j 0 ≡ false = ground arith in
          let same : j ≡ n = ground (arith, h) in
          let last : s j ≡ 0 = rw same nul.0 in rw (past, h) (sym last)
    ]

copy_line-FirstNul : (n : ℕ) (d s : ℕ → ℕ) → n ≤ 127 → FirstNul 0 n s → FirstNul 0 n (copy_line d s)
copy_line-FirstNul n d s short nul = (
  copy_line_at n d s n short nul (omega arith) ∙ nul.0,
  λ j low lt h. nul.1 j low lt (sym (copy_line_at n d s j short nul (omega arith)) ∙ h),
)

-- replace_line shows the line, with the cursor at its end.
replaced_text :
    (n : ℕ) (line : ℕ → ℕ) (k : Kernel)
    → n ≤ 127
    → FirstNul 0 n line
    → before_cursor (replace_line line k).keyboard ≡ slice line 0 n
unfolding replace_line
replaced_text n line k short nul =
    let buffer = copy_line k.keyboard.kbd_buffer line in
    let length : line_length buffer ≡ n =
      line_length_from_exact 127 0 n buffer (omega arith) (omega arith)
        (copy_line-FirstNul n k.keyboard.kbd_buffer line short nul) in
    rw (keyboard-redraw_line (with_keyboard (replaced line) k), length)
      (slice-cong buffer line 0 0 n (λ j lt.
        let e : 0 + j ≡ j = omega arith in
        rw e (copy_line_at n k.keyboard.kbd_buffer line j short nul (omega arith))))

-- The line that was put into the history last.
abbrev last_line : Kernel → ℕ → ℕ
last_line t = t.keyboard.command_history (history_slot (t.keyboard.history_count - 1) t.keyboard)

up_from :
    (cursor : Option ℕ) (t : Kernel)
    → cursor ≡ none
    → let pointed = point_up cursor t.keyboard in
      replace_line (recalled pointed.history_cursor pointed) (with_keyboard (λ kb. pointed) t)
      ≡ replace_line (last_line t) (with_keyboard (λ kb. point_up none t.keyboard) t)
unfolding point_up recalled
up_from cursor t h = rw h refl

-- history_up at the start of a line shows the last line of the history.
up_first :
    (n : ℕ) (t : Kernel)
    → (t.keyboard.history_count == 0) ≡ false
    → t.keyboard.history_cursor ≡ none
    → n ≤ 127
    → FirstNul 0 n (last_line t)
    → before_cursor (history_up t).keyboard ≡ slice (last_line t) 0 n
unfolding history_up
up_first n t some_line at_start short nul =
    rw (some_line, up_from t.keyboard.history_cursor t at_start)
      (replaced_text n (last_line t) (with_keyboard (λ kb. point_up none t.keyboard) t) short nul)

module _ (k : Kernel) (v : IsKeyboard k.keyboard)
    (some_text : (k.keyboard.buffer_idx == 0) ≡ false) where
  abbrev kb : Keyboard
  kb = k.keyboard

  -- The line as remember_command finds it, and as it stores it.
  abbrev line : ℕ → ℕ
  line = poke kb.buffer_idx 0 kb.kbd_buffer

  abbrev stored : ℕ → ℕ
  stored = copy_line (kb.command_history kb.history_next) line

  abbrev after_enter : Keyboard
  after_enter = record kb {
    edit_cursor = kb.buffer_idx;
    kbd_buffer = line;
    command_history = write_slot kb.history_next stored kb.command_history;
    history_next = (kb.history_next + 1) % 8;
    history_count = if ltb kb.history_count 8 then kb.history_count + 1 else kb.history_count;
    command_ready = true;
    rendered_length = 0;
  }

  keyboard-enter : (enter k).keyboard ≡ after_enter
  unfolding enter remember_command
  keyboard-enter = rw (keyboard-print_char, to_end-lem k v) (rw some_text refl)

  abbrev next_line : Kernel
  next_line = with_keyboard keyboard_begin_line (enter k)

  slot_of_last :
      (count : ℕ)
      → 0 < count
      → count ≤ 8
      → ((kb.history_next + 1) % 8 + 8 - count + (count - 1)) % 8 ≡ kb.history_next
  slot_of_last count low high = omega (arith, v.1.slot)

  line-FirstNul :
      ((j : ℕ) → j < kb.buffer_idx → kb.kbd_buffer j ≢ 0) → FirstNul 0 kb.buffer_idx line
  line-FirstNul clean = (ground arith, λ j low lt h. clean j lt (ground (arith, h, lt)))

  abbrev count : ℕ
  count = next_line.keyboard.history_count

  next_keyboard : next_line.keyboard ≡ keyboard_begin_line after_enter
  next_keyboard = ap keyboard_begin_line keyboard-enter

  next_count : (0 < count) × (count ≤ 8)
  unfolding keyboard_begin_line
  next_count =
      let same : count ≡ after_enter.history_count = ap (λ x. x.history_count) next_keyboard in
      (ground (arith, same), ground (arith, same, v.1.few))

  -- The place of the last line in the history is the one that was written.
  last_at : (i : ℕ) → last_line next_line i ≡ stored i
  unfolding keyboard_begin_line
  last_at i =
      let slot : history_slot (after_enter.history_count - 1) (keyboard_begin_line after_enter)
          ≡ kb.history_next =
        slot_of_last after_enter.history_count (ground arith) (ground (arith, v.1.few)) in
      rw next_keyboard (rw slot (ground arith))

  -- Where the line and the history are in order and the line is not empty and holds no NUL: after
  -- enter, keyboard_begin_line and history_up the text before the cursor is the line that was
  -- entered.
  pub history_up-enter :
      ((j : ℕ) → j < kb.buffer_idx → kb.kbd_buffer j ≢ 0)
      → before_cursor (history_up next_line).keyboard ≡ slice kb.kbd_buffer 0 kb.buffer_idx
  unfolding keyboard_begin_line
  history_up-enter clean =
      let n = kb.buffer_idx in
      let first = line-FirstNul clean in
      let kept =
        copy_line-FirstNul n (kb.command_history kb.history_next) line v.0.in_buffer first in
      up_first n next_line (ground (arith, next_count.0)) refl v.0.in_buffer
        (last_at n ∙ kept.0, λ j low lt h. kept.1 j low lt (sym (last_at j) ∙ h))
      ∙ slice-cong (last_line next_line) kb.kbd_buffer 0 0 n (λ j lt.
        let e : 0 + j ≡ j = omega arith in
        let same : line j ≡ kb.kbd_buffer j = ground (arith, lt) in
        rw e (
          last_at j
          ∙ (copy_line_at n (kb.command_history kb.history_next) line j v.0.in_buffer first
                (omega arith)
              ∙ same)))
