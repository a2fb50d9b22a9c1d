-- ===== src/Tests/Screens.antt =====
-- Two keys in the ring, around its end, and an empty screen.
use icosaos.Prelude.{ℕ, ◌≤◌, ◌<◌, ◌≡◌, ◌⊎◌, refl, arith, List, [], ◌∷◌, ◌==◌, if◌then◌else◌, ok}
use icosaos.Keyboard.{Keys, keyboard_get_char, keyboard_handler, Editor, kernel_read_line}
use icosaos.Keyboard.Queue.{
  IsQueue, contents, keyboard_get_char-contents, keyboard_handler-contents,
}
use icosaos.Keyboard.Line.{Edits}
use icosaos.Keyboard.Read.{kernel_read_line-edit}
use icosaos.Console.{Terminal, terminal_write}
use icosaos.Console.Cursor.{InScreen, cursor, terminal_write-InScreen}

-- 'x', backspace, 'a' and Enter.
abbrev keys : Keys
keys = record {
  key_buffer = λ i. if i == 254 then 120 else if i == 255 then 8 else if i == 0 then 97 else 10;
  buf_head = 2;
  buf_tail = 254;
  ports = [];
}

keys-IsQueue : IsQueue keys
keys-IsQueue = record {
  head = omega arith;
  tail = omega arith;
  keys = (omega arith, (omega arith, (omega arith, (omega arith, tt))));
}

keyboard_get_char-contents_example :
    (contents keys ≡ []) × (keyboard_get_char keys ≡ (0, keys))
    ⊎ ((c : ℕ) × (cs : List ℕ) × (contents keys ≡ c ∷ cs)
        × (0 < c)
        × ((keyboard_get_char keys).0 ≡ c)
        × (contents (keyboard_get_char keys).1 ≡ cs)
        × IsQueue (keyboard_get_char keys).1)
keyboard_get_char-contents_example = keyboard_get_char-contents keys keys-IsQueue

keyboard_handler-contents_example :
    IsQueue (keyboard_handler 0x1E keys)
    × (contents (keyboard_handler 0x1E keys) ≡ 120 ∷ 8 ∷ 97 ∷ 10 ∷ 97 ∷ [])
    × ((keyboard_handler 0x1E keys).ports ≡ (0x20, 0x20) ∷ [])
keyboard_handler-contents_example = keyboard_handler-contents 0x1E keys keys-IsQueue

kernel_read_line-edit_example :
    (e : Editor) × (kernel_read_line 5 80 (λ i. 255) ([] ∷ [] ∷ [] ∷ [] ∷ []) keys ≡ ok e)
    × Edits 80 (97 ∷ []) [] e
    × (e.buffer 1 ≡ 0)
kernel_read_line-edit_example =
    kernel_read_line-edit 5 80 (λ i. 255) ([] ∷ [] ∷ [] ∷ [] ∷ []) keys (97 ∷ []) [] keys-IsQueue
      (omega arith) (omega arith) (omega arith) (refl, (refl, (refl, (refl, tt)))) refl

abbrev screen : Terminal
screen = record { row = 24; column = 79; color = 7; buffer = λ i. 0 }

screen-InScreen : InScreen screen
screen-InScreen = record { row = omega arith; column = omega arith }

terminal_write-InScreen_example :
    InScreen (terminal_write 100 3 (λ a. 65) screen)
    × (cursor (terminal_write 100 3 (λ a. 65) screen) ≡ 2)
    × ((k : ℕ) → 2000 ≤ k → (terminal_write 100 3 (λ a. 65) screen).buffer k ≡ 0)
terminal_write-InScreen_example =
    terminal_write-InScreen 100 3 (λ a. 65) screen screen-InScreen
      (λ k p q. (λ e. absurd (omega arith), λ e. absurd (omega arith)))
