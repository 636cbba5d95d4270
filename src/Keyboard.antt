-- ===== src/Keyboard.antt =====
-- The line editor of the keyboard driver (kernel/keyboard.c). The scancode is the byte that port
-- 0x60 gave; the acknowledgement to the interrupt controller has no state here.
pub mod Arrays
pub mod Line
pub mod Delete
pub mod Recall
pub mod History
pub mod Handler
use glass_os.Prelude.{
  ℕ, zero, suc, ◌+◌, ◌-◌, ◌%◌, Bool, true, false, not, ◌&&◌, ◌||◌, Option, none, some, List, [],
  ◌∷◌, ◌++◌, get_or, for_range, ltb, leb, ◌==◌, if◌then◌else◌, text,
}
use glass_os.Text.{Text}
use glass_os.Kernel.{Kernel, Keyboard}
use glass_os.Screen.{poke, vga_move_cursor_left, vga_move_cursor_right, vga_backspace}
use glass_os.Console.{print_char}

abbrev pub line_capacity : ℕ
line_capacity = 128

abbrev pub history_capacity : ℕ
history_capacity = 8

-- kbd_us; the entries behind the list are 0.
abbrev pub kbd_us : List ℕ
kbd_us =
    0 ∷ 27 ∷ text "1234567890-="
    ++ (8 ∷ 9 ∷ text "qwertyuiop[]"
        ++ (10 ∷ 0 ∷ text "asdfghjkl;'`"
            ++ (0 ∷ 92 ∷ text "zxcvbnm,./" ++ (0 ∷ b'*' ∷ 0 ∷ b' ' ∷ 0 ∷ []))))

-- The cases of the switch of shifted_key.
abbrev shifted_pairs : List (ℕ × ℕ)
shifted_pairs =
    (b'1', b'!')
    ∷ (b'2', b'@')
    ∷ (b'3', b'#')
    ∷ (b'4', b'$')
    ∷ (b'5', b'%')
    ∷ (b'6', b'^')
    ∷ (b'7', b'&')
    ∷ (b'8', b'*')
    ∷ (b'9', b'(')
    ∷ (b'0', b')')
    ∷ (b'-', b'_')
    ∷ (b'=', b'+')
    ∷ (b'[', b'{')
    ∷ (b']', b'}')
    ∷ (92, b'|')
    ∷ (b';', b':')
    ∷ (39, 34)
    ∷ (b'`', b'~')
    ∷ (b',', b'<')
    ∷ (b'.', b'>')
    ∷ (b'/', b'?')
    ∷ []

unfoldable pub switch_on : ℕ → List (ℕ × ℕ) → ℕ
switch_on key [] = key
switch_on key ((from, to) ∷ pairs) = if key == from then to else switch_on key pairs

unfoldable pub shifted_key : ℕ → ℕ
unfolding switch_on
shifted_key key =
    if leb b'a' key && leb key b'z' then key - b'a' + b'A' else switch_on key shifted_pairs

-- The loop of copy_line from index `i` on, with `room` bytes left before the last one.
unfoldable pub copy_line_from : ℕ → ℕ → (ℕ → ℕ) → (ℕ → ℕ) → (ℕ → ℕ)
copy_line_from zero i destination source = poke i 0 destination
copy_line_from (suc room) i destination source =
    let rest = copy_line_from room (i + 1) (poke i (source i) destination) source in
    if source i == 0 then poke i 0 destination else rest

abbrev pub copy_line : (ℕ → ℕ) → (ℕ → ℕ) → (ℕ → ℕ)
copy_line destination source = copy_line_from 127 0 destination source

unfoldable pub line_length_from : ℕ → ℕ → (ℕ → ℕ) → ℕ
line_length_from zero i line = i
line_length_from (suc room) i line =
    let rest = line_length_from room (i + 1) line in if line i == 0 then i else rest

abbrev pub line_length : (ℕ → ℕ) → ℕ
line_length line = line_length_from 127 0 line

-- The loop of insert_character, downwards from index `i`.
unfoldable pub shift_right : ℕ → ℕ → (ℕ → ℕ) → (ℕ → ℕ)
shift_right zero i buffer = buffer
shift_right (suc rounds) i buffer = shift_right rounds (i - 1) (poke i (buffer (i - 1)) buffer)

-- The loop of delete_character, upwards from index `i`.
unfoldable pub shift_left : ℕ → ℕ → (ℕ → ℕ) → (ℕ → ℕ)
shift_left zero i buffer = buffer
shift_left (suc rounds) i buffer = shift_left rounds (i + 1) (poke i (buffer (i + 1)) buffer)

abbrev pub with_keyboard : (Keyboard → Keyboard) → Kernel → Kernel
with_keyboard f k = record k { keyboard = f k.keyboard }

abbrev pub screen_left : Kernel → Kernel
screen_left k = record k { screen = vga_move_cursor_left k.screen }

abbrev pub screen_right : Kernel → Kernel
screen_right k = record k { screen = vga_move_cursor_right k.screen }

abbrev pub screen_backspace : Kernel → Kernel
screen_backspace k = record k { screen = vga_backspace k.screen }

unfoldable pub redraw_line : Kernel → Kernel
redraw_line k =
    let kb = k.keyboard in
    let at_end =
      for_range (kb.rendered_length - kb.edit_cursor) kb.edit_cursor (λ i t. screen_right t) k in
    let empty = for_range kb.rendered_length 0 (λ i t. screen_backspace t) at_end in
    let printed = for_range kb.buffer_idx 0 (λ i t. print_char (kb.kbd_buffer i) t) empty in
    let rendered = with_keyboard (λ x. record x { rendered_length = kb.buffer_idx }) printed in
    for_range (kb.buffer_idx - kb.edit_cursor) kb.edit_cursor (λ i t. screen_left t) rendered

abbrev pub replaced : (ℕ → ℕ) → Keyboard → Keyboard
replaced line kb =
    let buffer = copy_line kb.kbd_buffer line in
    record kb {
      kbd_buffer = buffer;
      buffer_idx = line_length buffer;
      edit_cursor = line_length buffer;
    }

unfoldable pub replace_line : (ℕ → ℕ) → Kernel → Kernel
replace_line line k = redraw_line (with_keyboard (replaced line) k)

abbrev pub history_slot : ℕ → Keyboard → ℕ
history_slot index kb =
    (kb.history_next + history_capacity - kb.history_count + index) % history_capacity

-- `command_history[slot] = line`
abbrev pub write_slot : ℕ → (ℕ → ℕ) → (ℕ → ℕ → ℕ) → ℕ → ℕ → ℕ
write_slot slot line history i = if i == slot then line else history i

unfoldable pub remember_command : Keyboard → Keyboard
remember_command kb = if kb.buffer_idx == 0 then kb else record kb {
  command_history =
      write_slot kb.history_next (copy_line (kb.command_history kb.history_next) kb.kbd_buffer)
        kb.command_history;
  history_next = (kb.history_next + 1) % history_capacity;
  history_count =
      if ltb kb.history_count history_capacity then kb.history_count + 1 else kb.history_count;
}

abbrev pub point_at : Option ℕ → Keyboard → Keyboard
point_at cursor kb = record kb { history_cursor = cursor }

-- The assignments of history_up before replace_line, for the value of history_cursor.
unfoldable pub point_up : Option ℕ → Keyboard → Keyboard
point_up none kb = record kb {
  saved_line = copy_line kb.saved_line kb.kbd_buffer;
  history_cursor = some (kb.history_count - 1);
}
point_up (some c) kb = if ltb 0 c then point_at (some (c - 1)) kb else kb

-- `command_history[history_slot(history_cursor)]`, which is read only where history_cursor is not -1.
unfoldable pub recalled : Option ℕ → Keyboard → ℕ → ℕ
recalled none kb = kb.command_history (history_slot 0 kb)
recalled (some c) kb = kb.command_history (history_slot c kb)

unfoldable pub history_up : Kernel → Kernel
history_up k =
    if k.keyboard.history_count == 0
    then k
    else let pointed = point_up k.keyboard.history_cursor k.keyboard in
      replace_line (recalled pointed.history_cursor pointed) (with_keyboard (λ kb. pointed) k)

-- history_down for the value of history_cursor.
unfoldable pub history_down_from : Option ℕ → Kernel → Kernel
history_down_from none k = k
history_down_from (some c) k =
    if ltb c (k.keyboard.history_count - 1)
    then (let pointed = point_at (some (c + 1)) k.keyboard in
        replace_line (recalled (some (c + 1)) pointed) (with_keyboard (λ kb. pointed) k))
    else replace_line k.keyboard.saved_line (with_keyboard (point_at none) k)

unfoldable pub history_down : Kernel → Kernel
history_down k = history_down_from k.keyboard.history_cursor k

abbrev pub inserted : ℕ → Keyboard → Keyboard
inserted key kb =
    let shifted = shift_right (kb.buffer_idx - kb.edit_cursor) kb.buffer_idx kb.kbd_buffer in
    record kb {
      kbd_buffer = poke (kb.buffer_idx + 1) 0 (poke kb.edit_cursor key shifted);
      edit_cursor = kb.edit_cursor + 1;
      buffer_idx = kb.buffer_idx + 1;
      history_cursor = none;
    }

unfoldable pub insert_character : ℕ → Kernel → Kernel
insert_character key k =
    if leb (line_capacity - 1) k.keyboard.buffer_idx
    then k
    else redraw_line (with_keyboard (inserted key) k)

abbrev pub deleted : Keyboard → Keyboard
deleted kb =
    let last = kb.buffer_idx - 1 in
    record kb {
      kbd_buffer = poke last 0 (shift_left (last - kb.edit_cursor) kb.edit_cursor kb.kbd_buffer);
      buffer_idx = last;
      history_cursor = none;
    }

unfoldable pub delete_character : Kernel → Kernel
delete_character k =
    if leb k.keyboard.buffer_idx k.keyboard.edit_cursor
    then k
    else redraw_line (with_keyboard deleted k)

-- `edit_cursor--; vga_move_cursor_left();` and its mirror image.
unfoldable pub cursor_left : Kernel → Kernel
cursor_left k = screen_left (with_keyboard (λ kb. record kb { edit_cursor = kb.edit_cursor - 1 }) k)

unfoldable pub cursor_right : Kernel → Kernel
cursor_right k =
    screen_right (with_keyboard (λ kb. record kb { edit_cursor = kb.edit_cursor + 1 }) k)

unfoldable pub backspace_character : Kernel → Kernel
backspace_character k = if k.keyboard.edit_cursor == 0 then k else delete_character (cursor_left k)

unfoldable pub keyboard_begin_line : Keyboard → Keyboard
keyboard_begin_line kb = record kb {
  buffer_idx = 0;
  edit_cursor = 0;
  rendered_length = 0;
  command_ready = false;
  history_cursor = none;
  kbd_buffer = poke 0 0 kb.kbd_buffer;
}

-- `while (edit_cursor < buffer_idx) { edit_cursor++; vga_move_cursor_right(); }`
unfoldable pub to_end : Kernel → Kernel
to_end k = for_range (k.keyboard.buffer_idx - k.keyboard.edit_cursor) 0 (λ i t. cursor_right t) k

-- `while (edit_cursor > 0) { edit_cursor--; vga_move_cursor_left(); }`
unfoldable pub to_start : Kernel → Kernel
to_start k = for_range k.keyboard.edit_cursor 0 (λ i t. cursor_left t) k

-- The branch for '\n'.
abbrev pub finished : Keyboard → Keyboard
finished kb =
    record (remember_command (record kb { kbd_buffer = poke kb.buffer_idx 0 kb.kbd_buffer })) {
      command_ready = true;
      rendered_length = 0;
    }

unfoldable pub enter : Kernel → Kernel
enter k = print_char 10 (with_keyboard finished (to_end k))

-- The switch on an extended scancode.
unfoldable pub extended_key : ℕ → Kernel → Kernel
extended_key scancode k =
    if scancode == 0x4B
    then (if ltb 0 k.keyboard.edit_cursor then cursor_left k else k)
    else if scancode == 0x4D
    then (if ltb k.keyboard.edit_cursor k.keyboard.buffer_idx then cursor_right k else k)
    else if scancode == 0x47
    then to_start k
    else if scancode == 0x4F
    then to_end k
    else if scancode == 0x48
    then history_up k
    else if scancode == 0x50
    then history_down k
    else if scancode == 0x53
    then delete_character k
    else k

unfoldable pub plain_key : ℕ → Kernel → Kernel
plain_key scancode k =
    let plain = get_or kbd_us scancode 0 in
    let key = if k.keyboard.shift_pressed then shifted_key plain else plain in
    if key == 10
    then enter k
    else if key == 8
    then backspace_character k
    else if key == 0
    then k
    else insert_character key k

abbrev pub set_extended : Bool → Kernel → Kernel
set_extended b = with_keyboard λ kb. record kb { extended_scancode = b }

abbrev pub set_shift : Bool → Kernel → Kernel
set_shift b = with_keyboard λ kb. record kb { shift_pressed = b }

unfoldable pub keyboard_handler : ℕ → Kernel → Kernel
keyboard_handler scancode k =
    if scancode == 0xE0
    then set_extended true k
    else if scancode == 0x2A || scancode == 0x36
    then set_shift true k
    else if scancode == 0xAA || scancode == 0xB6
    then set_shift false k
    else set_extended false (
        if leb 0x80 scancode || k.keyboard.command_ready
        then k
        else if k.keyboard.extended_scancode
        then extended_key scancode k
        else plain_key scancode k)
