-- ===== src/Console.antt =====
-- src/kernel/lvga.c: the text terminal of 80 columns and 25 rows. The buffer holds 16-bit entries by
-- index; an index is a 32-bit `size_t`.
pub mod Cursor
pub mod Hex
pub mod Printk
pub mod Registers
use icosaos.Prelude.{
  ℕ, zero, suc, ◌+◌, ◌-◌, ◌*◌, bit_and, bit_or, u8, u16, ◌<<<◌, ◌>>>◌, add32, mul32, sub32, update,
  ◌==◌, List, [], ◌∷◌, get_elem, if◌then◌else◌, Run, ok, out_of_fuel, ◌>>=◌,
}

abbrev pub vga_width : ℕ
vga_width = 80

abbrev pub vga_height : ℕ
vga_height = 25

abbrev pub vga_color_light_grey : ℕ
vga_color_light_grey = 7

abbrev pub vga_color_black : ℕ
vga_color_black = 0

unfoldable pub vga_entry_color : ℕ → ℕ → ℕ
vga_entry_color fg bg = u8 (bit_or fg (bg <<< 4))

unfoldable pub vga_entry : ℕ → ℕ → ℕ
vga_entry uc color = u16 (bit_or (u8 uc) (color <<< 8))

pub record Terminal : Type 0 where
  pub row : ℕ
  pub column : ℕ
  pub color : ℕ
  pub buffer : ℕ → ℕ

unfoldable pub terminal_putentryat : ℕ → ℕ → ℕ → ℕ → Terminal → Terminal
terminal_putentryat c color x y s = record s {
  buffer = update s.buffer (add32 (mul32 y vga_width) x) (vga_entry c color);
}

unfoldable pub terminal_putchar : ℕ → Terminal → Terminal
terminal_putchar c s =
    let left = sub32 s.column 1 in
    let right = add32 s.column 1 in
    let down = add32 s.row 1 in
    let drawn = terminal_putentryat c s.color s.column s.row s in
    if c == 10
    then record s { row = down; column = 0 }
    else if c == 8
    then terminal_putentryat 32 s.color left s.row (record s { column = left })
    else if right == vga_width
    then record drawn { column = 0; row = if down == vga_height then 0 else down }
    else record drawn { column = right }

-- The loop of `terminal_flush`.
unfoldable pub put_spaces : ℕ → Terminal → Terminal
put_spaces zero s = s
put_spaces (suc n) s = put_spaces n (terminal_putchar 32 s)

unfoldable pub terminal_flush : Terminal → Terminal
terminal_flush s = record (put_spaces (vga_width * vga_height) (record s { row = 0; column = 0 })) {
  row = 0;
  column = 0;
}

-- The two loops of `terminal_initialize`.
unfoldable pub clear_row : ℕ → ℕ → ℕ → Terminal → Terminal
clear_row zero x y s = s
clear_row (suc n) x y s =
    clear_row n (x + 1) y
      (record s { buffer = update s.buffer (add32 (mul32 y vga_width) x) (vga_entry 32 s.color) })

unfoldable pub clear_rows : ℕ → ℕ → Terminal → Terminal
clear_rows zero y s = s
clear_rows (suc n) y s = clear_rows n (y + 1) (clear_row vga_width 0 y s)

unfoldable pub terminal_initialize : Terminal → Terminal
terminal_initialize s =
    clear_rows vga_height 0 (record s {
      row = 0;
      column = 0;
      color = vga_entry_color vga_color_light_grey vga_color_black;
    })

unfoldable pub terminal_setcolor : ℕ → Terminal → Terminal
terminal_setcolor color s = record s { color = color }

-- The loop of `strlen`, on fuel.
unfoldable pub length_from : ℕ → ℕ → ℕ → (ℕ → ℕ) → Run ℕ
length_from zero str len bytes = out_of_fuel
length_from (suc fuel) str len bytes =
    let rest = length_from fuel str (add32 len 1) bytes in
    if bytes (add32 str len) == 0 then ok len else rest

unfoldable pub strlen : ℕ → ℕ → (ℕ → ℕ) → Run ℕ
strlen fuel str bytes = length_from fuel str 0 bytes

-- The loop of `terminal_write`.
unfoldable pub write_from : ℕ → ℕ → ℕ → (ℕ → ℕ) → Terminal → Terminal
write_from zero i text bytes s = s
write_from (suc n) i text bytes s =
    write_from n (i + 1) text bytes (terminal_putchar (bytes (add32 text i)) s)

unfoldable pub terminal_write : ℕ → ℕ → (ℕ → ℕ) → Terminal → Terminal
terminal_write text size bytes s = write_from size 0 text bytes s

unfoldable pub terminal_writestring : ℕ → ℕ → (ℕ → ℕ) → Terminal → Run Terminal
terminal_writestring fuel text bytes s = do
  size ← strlen fuel text bytes
  ok (terminal_write text size bytes s)

-- `hex_chars`, the ASCII codes of "0123456789ABCDEF".
abbrev pub hex_chars : List ℕ
hex_chars = 48 ∷ 49 ∷ 50 ∷ 51 ∷ 52 ∷ 53 ∷ 54 ∷ 55 ∷ 56 ∷ 57 ∷ 65 ∷ 66 ∷ 67 ∷ 68 ∷ 69 ∷ 70 ∷ []

-- The loop of `terminal_write_hex`, with `n` rounds left.
unfoldable pub hex_digits : ℕ → ℕ → ℕ → (ℕ → ℕ) → ℕ → ℕ
hex_digits zero i value buffer = buffer
hex_digits (suc n) i value buffer =
    hex_digits n (i + 1) value
      (update buffer (9 - i) (get_elem hex_chars (bit_and (value >>> (i * 4)) 0xF)))

-- The local buffer of `terminal_write_hex`: "0x", eight digits, and the end of the string.
unfoldable pub hex_buffer : ℕ → (ℕ → ℕ) → ℕ → ℕ
hex_buffer value buffer = update (hex_digits 8 0 value (update (update buffer 0 48) 1 120)) 10 0

-- The local array stands at address 0 of `stack`.
unfoldable pub terminal_write_hex : ℕ → ℕ → (ℕ → ℕ) → Terminal → Run Terminal
terminal_write_hex fuel value stack s = terminal_writestring fuel 0 (hex_buffer value stack) s
