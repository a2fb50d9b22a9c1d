-- ===== src/Framebuffer.antt =====
-- src/kernel/vga_graphics.c: the text console on the linear framebuffer. Memory is a function of the
-- address to its byte. The bitmap font of src/kernel/headers/sysfont.h is a parameter.
pub mod Geometry
pub mod Words
pub mod Pixels
pub mod Fill
pub mod Scroll
pub mod Text
use icosaos.Prelude.{
  ℕ, zero, suc, ◌+◌, ◌-◌, ◌*◌, ◌/◌, ◌%◌, not, ◌&&◌, bit_and, bit_or, u8, add32, sub32, mul32, ◌<<<◌,
  ◌>>>◌, update, ◌==◌, ltb, leb, if◌then◌else◌, store32, load32,
}

-- The static variables that `vga_init` sets, the cursor, and memory.
pub record Mode : Type 0 where
  pub framebuffer : ℕ
  pub width : ℕ
  pub height : ℕ
  pub pitch : ℕ
  pub bpp : ℕ

pub record Screen : Type 0 where
  pub mode : Mode
  pub cursor_x : ℕ
  pub cursor_y : ℕ
  pub bytes : ℕ → ℕ

abbrev pub base_font_width : ℕ
base_font_width = 8

abbrev pub base_font_height : ℕ
base_font_height = 8

abbrev pub scale_factor : ℕ
scale_factor = 1

abbrev pub render_font_width : ℕ
render_font_width = base_font_width * scale_factor

abbrev pub render_font_height : ℕ
render_font_height = base_font_height * scale_factor

abbrev pub row_ptr : Mode → ℕ → ℕ
row_ptr m y = add32 m.framebuffer (mul32 y m.pitch)

-- The three bytes of a pixel at 24 bits, and their reading.
unfoldable pub store24 : ℕ → ℕ → (ℕ → ℕ) → ℕ → ℕ
store24 at color bytes =
    update
      (update (update bytes at (u8 (bit_and color 0xFF))) (add32 at 1)
        (u8 (bit_and (color >>> 8) 0xFF)))
      (add32 at 2) (u8 (bit_and (color >>> 16) 0xFF))

unfoldable pub load24 : ℕ → (ℕ → ℕ) → ℕ
load24 at bytes = bit_or (bit_or (bytes at) (bytes (add32 at 1) <<< 8)) (bytes (add32 at 2) <<< 16)

unfoldable pub vga_write_pixel : Mode → ℕ → ℕ → ℕ → (ℕ → ℕ) → ℕ → ℕ
vga_write_pixel m x y color bytes =
    if m.bpp == 32
    then store32 (add32 (row_ptr m y) (mul32 x 4)) color bytes
    else if m.bpp == 24
    then store24 (add32 (row_ptr m y) (mul32 x 3)) color bytes
    else bytes

unfoldable pub vga_read_pixel : Mode → ℕ → ℕ → (ℕ → ℕ) → ℕ
vga_read_pixel m x y bytes =
    if m.bpp == 32
    then load32 (add32 (row_ptr m y) (mul32 x 4)) bytes
    else if m.bpp == 24
    then load24 (add32 (row_ptr m y) (mul32 x 3)) bytes
    else 0

unfoldable pub vga_init : ℕ → ℕ → ℕ → ℕ → ℕ → Screen → Screen
vga_init fb_addr w h pitch_bytes bpp s = record s {
  mode = record { framebuffer = fb_addr; width = w; height = h; pitch = pitch_bytes; bpp = bpp };
  cursor_x = 0;
  cursor_y = 0;
}

-- The loops over the columns of a row and over rows, with `n` rounds left; the ends are those of the
-- code's conditions.
unfoldable pub fill_columns : Mode → ℕ → ℕ → ℕ → ℕ → ℕ → (ℕ → ℕ) → ℕ → ℕ
fill_columns m zero x x_end y color bytes = bytes
fill_columns m (suc n) x x_end y color bytes =
    let rest = fill_columns m n (x + 1) x_end y color (vga_write_pixel m x y color bytes) in
    if ltb x x_end && ltb x m.width then rest else bytes

unfoldable pub fill_rows : Mode → ℕ → ℕ → ℕ → ℕ → ℕ → ℕ → (ℕ → ℕ) → ℕ → ℕ
fill_rows m zero y y_end x_start w color bytes = bytes
fill_rows m (suc n) y y_end x_start w color bytes =
    let rest =
      fill_rows m n (y + 1) y_end x_start w color
        (fill_columns m w x_start (add32 x_start w) y color bytes) in
    if ltb y y_end && ltb y m.height then rest else bytes

unfoldable pub vga_clear_rect : Mode → ℕ → ℕ → ℕ → ℕ → ℕ → (ℕ → ℕ) → ℕ → ℕ
vga_clear_rect m x_start y_start w h color bytes =
    fill_rows m h y_start (add32 y_start h) x_start w color bytes

-- `vga_clear_screen`: its loops end at the width and the height.
unfoldable pub vga_clear_screen : ℕ → Screen → Screen
vga_clear_screen color s = if s.mode.framebuffer == 0 then s else record s {
  bytes = fill_rows s.mode s.mode.height 0 s.mode.height 0 s.mode.width color s.bytes;
}

-- The loops of `vga_scroll`.
unfoldable pub copy_columns : Mode → ℕ → ℕ → ℕ → (ℕ → ℕ) → ℕ → ℕ
copy_columns m zero x y bytes = bytes
copy_columns m (suc n) x y bytes =
    copy_columns m n (x + 1) y
      (vga_write_pixel m x y (vga_read_pixel m x (add32 y render_font_height) bytes) bytes)

unfoldable pub copy_rows : Mode → ℕ → ℕ → (ℕ → ℕ) → ℕ → ℕ
copy_rows m zero y bytes = bytes
copy_rows m (suc n) y bytes = copy_rows m n (y + 1) (copy_columns m m.width 0 y bytes)

unfoldable pub vga_scroll : ℕ → Screen → Screen
vga_scroll bg_color s =
    let total_rows_to_copy = sub32 s.mode.height render_font_height in
    if leb s.mode.height render_font_height then s else record s {
      bytes =
          vga_clear_rect s.mode 0 total_rows_to_copy s.mode.width render_font_height bg_color
            (copy_rows s.mode total_rows_to_copy 0 s.bytes);
      cursor_y = total_rows_to_copy;
    }

unfoldable pub vga_get_cursor_x : Screen → ℕ
vga_get_cursor_x s = s.cursor_x

unfoldable pub vga_get_cursor_y : Screen → ℕ
vga_get_cursor_y s = s.cursor_y

unfoldable pub vga_set_cursor : ℕ → ℕ → Screen → Screen
vga_set_cursor x y s = record s {
  cursor_x = if ltb x s.mode.width then x else s.cursor_x;
  cursor_y = if ltb y s.mode.height then y else s.cursor_y;
}

unfoldable pub vga_backspace : ℕ → Screen → Screen
vga_backspace bg_color s =
    let max_chars_per_row = s.mode.width / render_font_width in
    let row_end =
      if ltb 0 max_chars_per_row then mul32 (sub32 max_chars_per_row 1) render_font_width else 0 in
    let back = if leb render_font_width s.cursor_x then sub32 s.cursor_x render_font_width else 0 in
    let x = if s.cursor_x == 0 then row_end else back in
    let y = if s.cursor_x == 0 then sub32 s.cursor_y render_font_height else s.cursor_y in
    let wiped = record s {
      cursor_x = x;
      cursor_y = y;
      bytes = vga_clear_rect s.mode x y render_font_width render_font_height bg_color s.bytes;
    } in
    if s.mode.framebuffer == 0
    then s
    else if s.cursor_x == 0 && not (leb render_font_height s.cursor_y)
    then s
    else wiped
