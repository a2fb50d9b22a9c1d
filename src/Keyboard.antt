-- ===== src/Keyboard.antt =====
-- src/kernel/keyboard.c: the ring buffer of keys, the interrupt handler that fills it, and the line
-- editor that empties it. The ports are a log of what was written, the screen a log of the calls.
pub mod Queue
pub mod Line
pub mod Read
use icosaos.Prelude.{
  ℕ, zero, suc, ◌+◌, ◌%◌, ◌/◌, not, List, [], ◌∷◌, add32, sub32, u32, update, bit_and, ◌==◌, ltb,
  if◌then◌else◌, Run, ok, out_of_fuel, ◌>>=◌, get_elem, size_of,
}

-- `scancode_to_ascii`
abbrev pub scancode_to_ascii : List ℕ
scancode_to_ascii =
    0 ∷ 27 ∷ 49 ∷ 50 ∷ 51 ∷ 52 ∷ 53 ∷ 54 ∷ 55 ∷ 56 ∷ 57 ∷ 48 ∷ 45 ∷ 61 ∷ 8 ∷ 9 ∷ 113 ∷ 119 ∷ 101
    ∷ 114 ∷ 116 ∷ 121 ∷ 117 ∷ 105 ∷ 111 ∷ 112 ∷ 91 ∷ 93 ∷ 10 ∷ 0 ∷ 97 ∷ 115 ∷ 100 ∷ 102 ∷ 103 ∷ 104
    ∷ 106 ∷ 107 ∷ 108 ∷ 59 ∷ 39 ∷ 96 ∷ 0 ∷ 92 ∷ 122 ∷ 120 ∷ 99 ∷ 118 ∷ 98 ∷ 110 ∷ 109 ∷ 44 ∷ 46 ∷ 47
    ∷ 0 ∷ 42 ∷ 0 ∷ 32 ∷ []

abbrev pub key_buffer_size : ℕ
key_buffer_size = 256

-- The static variables of keyboard.c, and the ports.
pub record Keys : Type 0 where
  pub key_buffer : ℕ → ℕ
  pub buf_head : ℕ
  pub buf_tail : ℕ
  pub ports : List (ℕ × ℕ)

unfoldable pub enqueue_key : ℕ → Keys → Keys
enqueue_key c s =
    let next_head = add32 s.buf_head 1 % key_buffer_size in
    if not (next_head == s.buf_tail)
    then record s { key_buffer = update s.key_buffer s.buf_head c; buf_head = next_head }
    else s

unfoldable pub keyboard_get_char : Keys → ℕ × Keys
keyboard_get_char s =
    if s.buf_head == s.buf_tail
    then (0, s)
    else (s.key_buffer s.buf_tail, record s { buf_tail = add32 s.buf_tail 1 % key_buffer_size })

-- The handler of the keyboard interrupt, for the byte that port 0x60 holds.
unfoldable pub keyboard_handler : ℕ → Keys → Keys
keyboard_handler scancode s =
    let ascii = get_elem scancode_to_ascii scancode in
    let s' =
      if bit_and scancode 0x80 == 0
      then if ltb scancode (size_of scancode_to_ascii)
        then if not (ascii == 0) then enqueue_key ascii s else s
        else s
      else s in
    record s' { ports = (0x20, 0x20) ∷ s'.ports }

-- The interrupts that arrive between two looks at the buffer, in their order.
unfoldable pub interrupts : List ℕ → Keys → Keys
interrupts [] s = s
interrupts (scancode ∷ more) s = interrupts more (keyboard_handler scancode s)

-- The loop spins until there is a key: `arrivals` are the interrupts before each look. It is given
-- up when the arrivals end.
unfoldable pub keyboard_get_char_blocking : List (List ℕ) → Keys → Run (ℕ × List (List ℕ) × Keys)
keyboard_get_char_blocking [] s = out_of_fuel
keyboard_get_char_blocking (now ∷ later) s =
    let (c, s') = keyboard_get_char (interrupts now s) in
    let rest = keyboard_get_char_blocking later s' in if c == 0 then rest else ok (c, later, s')

-- The calls that draw on the screen.
pub data Drawn : Type 0 where
  put : ℕ → Drawn
  backspace : Drawn

-- What the line editor works on.
pub record Editor : Type 0 where
  pub buffer : ℕ → ℕ
  pub index : ℕ
  pub screen : List Drawn
  pub keys : Keys
  pub arrivals : List (List ℕ)

-- The first loop of `kernel_read_line`, which clears the buffer.
unfoldable pub clear_buffer : ℕ → ℕ → (ℕ → ℕ) → ℕ → ℕ
clear_buffer zero i buffer = buffer
clear_buffer (suc n) i buffer = clear_buffer n (i + 1) (update buffer i 0)

-- Backspace, and a key that is neither Enter nor backspace.
unfoldable pub erase : Editor → Editor
erase e =
    let index = sub32 e.index 1 in
    if ltb 0 e.index
    then record e { buffer = update e.buffer index 0; index = index; screen = backspace ∷ e.screen }
    else e

unfoldable pub type_key : ℕ → Editor → Editor
type_key c e = record e {
  buffer = update e.buffer e.index c;
  index = add32 e.index 1;
  screen = put c ∷ e.screen;
}

-- The editing loop, on fuel.
unfoldable pub edit_loop : ℕ → ℕ → Editor → Run Editor
edit_loop zero max_len e = out_of_fuel
edit_loop (suc fuel) max_len e =
    if ltb e.index (sub32 max_len 1)
    then (do
      (c, arrivals, keys) ← keyboard_get_char_blocking e.arrivals e.keys
      let e' = record e { keys = keys; arrivals = arrivals } in
          let erased = edit_loop fuel max_len (erase e') in
          let typed = edit_loop fuel max_len (type_key c e') in
          if c == 10
          then ok (record e' { screen = put 10 ∷ e'.screen })
          else if c == 8
          then erased
          else typed)
    else ok e

unfoldable pub kernel_read_line : ℕ → ℕ → (ℕ → ℕ) → List (List ℕ) → Keys → Run Editor
kernel_read_line fuel max_len buffer arrivals keys = do
  e ← edit_loop fuel max_len (record {
    buffer = clear_buffer max_len 0 buffer;
    index = 0;
    screen = [];
    keys = keys;
    arrivals = arrivals;
  })
  ok (record e { buffer = update e.buffer e.index 0 })
