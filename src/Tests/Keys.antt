-- ===== src/Tests/Keys.antt =====
-- The line editor.
use glass_os.Prelude.{◌≢◌, ◌≡◌, ◌⊎◌, ◌<◌, ◌++◌, refl, arith, ℕ, [], ◌∷◌, text}
use glass_os.Keyboard.Arrays.{slice}
use glass_os.Keyboard.Line.{IsLine, before_cursor, after_cursor, insert_character_lem}
use glass_os.Keyboard.Delete.{delete_character_lem}
use glass_os.Keyboard.History.{history_up-enter}
use glass_os.Keyboard.Recall.{IsKeyboard}
use glass_os.Keyboard.Handler.{keyboard_handler-IsKeyboard}
use glass_os.Keyboard.{
  history_up, enter, keyboard_begin_line, with_keyboard, insert_character, delete_character,
  keyboard_handler, shifted_key, switch_on,
}
use glass_os.Tests.Sample.{kernel}

kernel-IsLine : IsLine kernel.keyboard
kernel-IsLine = record { on_line = omega arith; in_buffer = omega arith; ended = refl }

kernel-IsKeyboard : IsKeyboard kernel.keyboard
kernel-IsKeyboard =
    (kernel-IsLine, record { few = omega arith; slot = omega arith; place = λ c h. cc })

insert_character_lem_example :
    let k' = insert_character b'x' kernel in
    ((kernel.keyboard.buffer_idx ≡ 127) × (k' ≡ kernel))
    ⊎ ((kernel.keyboard.buffer_idx < 127)
        × (before_cursor k'.keyboard ≡ before_cursor kernel.keyboard ++ b'x' ∷ [])
        × (after_cursor k'.keyboard ≡ after_cursor kernel.keyboard)
        × IsLine k'.keyboard)
insert_character_lem_example = insert_character_lem b'x' kernel kernel-IsLine

delete_character_lem_example :
    let k' = delete_character kernel in
    ((kernel.keyboard.edit_cursor ≡ kernel.keyboard.buffer_idx) × (k' ≡ kernel))
    ⊎ ((before_cursor k'.keyboard ≡ before_cursor kernel.keyboard)
        × ((c : ℕ) × (after_cursor kernel.keyboard ≡ c ∷ after_cursor k'.keyboard))
        × IsLine k'.keyboard)
delete_character_lem_example = delete_character_lem kernel kernel-IsLine

keyboard_handler-IsKeyboard_example : IsKeyboard (keyboard_handler 0x1E kernel).keyboard
keyboard_handler-IsKeyboard_example = keyboard_handler-IsKeyboard 0x1E kernel kernel-IsKeyboard

text_before : before_cursor kernel.keyboard ≡ text "a"
unfolding slice text
text_before = refl

text_after : after_cursor kernel.keyboard ≡ text "b"
unfolding slice text
text_after = refl

shifted_digit : shifted_key b'1' ≡ b'!'
unfolding shifted_key switch_on
shifted_digit = refl

no_nul : (j : ℕ) → j < kernel.keyboard.buffer_idx → kernel.keyboard.kbd_buffer j ≢ 0
no_nul j lt = ground (arith, lt)

history_up-enter_example :
    before_cursor (history_up (with_keyboard keyboard_begin_line (enter kernel))).keyboard
    ≡ b'a' ∷ b'b' ∷ []
unfolding slice
history_up-enter_example = history_up-enter kernel kernel-IsKeyboard refl no_nul
