-- ===== src/Framebuffer/Text.antt =====
-- Putting characters and strings on the framebuffer: `vga_put_char` and `vga_print`. A character is
-- the number of its `uint8_t`.
pub mod Glyph
pub mod Place
pub mod Put
pub mod Kept
pub mod Print
use icosaos.Prelude.{
  ℕ, zero, suc, ◌+◌, ◌*◌, ◌&&◌, bit_and, u8, add32, ◌<<<◌, ◌==◌, ltb, if◌then◌else◌, Bool, Run, ok,
  out_of_fuel,
}
use icosaos.Framebuffer.{
  Mode, Screen, base_font_width, base_font_height, scale_factor, render_font_width,
  render_font_height, vga_write_pixel, vga_scroll,
}

-- The font's byte for a row of a character.
abbrev pub Font : Type 0
Font = ℕ → ℕ → ℕ

unfoldable pub pixel_color : Font → ℕ → ℕ → ℕ → ℕ → ℕ → ℕ
pixel_color font ascii_index row col fg_color bg_color =
    if bit_and (u8 (font ascii_index row)) (1 <<< col) == 0 then bg_color else fg_color

unfoldable pub ascii_index : ℕ → ℕ
ascii_index c = if ltb 127 c then 0 else c

-- The body of the innermost loop, and that loop and the one around it, with `n` rounds left.
unfoldable pub put_dot : Mode → ℕ → ℕ → ℕ → (ℕ → ℕ) → ℕ → ℕ
put_dot m target_x target_y color bytes =
    if ltb target_x m.width && ltb target_y m.height
    then vga_write_pixel m target_x target_y color bytes
    else bytes

unfoldable pub put_dots : Mode → ℕ → ℕ → ℕ → ℕ → ℕ → (ℕ → ℕ) → ℕ → ℕ
put_dots m zero sx left target_y color bytes = bytes
put_dots m (suc n) sx left target_y color bytes =
    put_dots m n (sx + 1) left target_y color (put_dot m (add32 left sx) target_y color bytes)

unfoldable pub put_block : Mode → ℕ → ℕ → ℕ → ℕ → ℕ → (ℕ → ℕ) → ℕ → ℕ
put_block m zero sy left top color bytes = bytes
put_block m (suc n) sy left top color bytes =
    put_block m n (sy + 1) left top color
      (put_dots m scale_factor 0 left (add32 top sy) color bytes)

-- The loops over the columns and the rows of a character.
unfoldable pub put_columns : Font → ℕ → ℕ → ℕ → Screen → ℕ → ℕ → ℕ → (ℕ → ℕ) → ℕ → ℕ
put_columns font c fg bg s row zero col bytes = bytes
put_columns font c fg bg s row (suc n) col bytes = put_columns font c fg bg s row n (col + 1) (
    put_block s.mode scale_factor 0 (add32 s.cursor_x (col * scale_factor))
      (add32 s.cursor_y (row * scale_factor)) (pixel_color font c row col fg bg) bytes)

unfoldable pub put_rows : Font → ℕ → ℕ → ℕ → Screen → ℕ → ℕ → (ℕ → ℕ) → ℕ → ℕ
put_rows font c fg bg s zero row bytes = bytes
put_rows font c fg bg s (suc n) row bytes =
    put_rows font c fg bg s n (row + 1) (put_columns font c fg bg s row base_font_width 0 bytes)

-- The start of the next line.
unfoldable pub next_line : ℕ → Screen → Screen
next_line bg_color s =
    let moved = record s { cursor_x = 0; cursor_y = add32 s.cursor_y render_font_height } in
    if ltb s.mode.height (add32 moved.cursor_y render_font_height)
    then vga_scroll bg_color moved
    else moved

-- The cursor after a character.
unfoldable pub advance : ℕ → Screen → Screen
advance bg_color s =
    let moved = record s { cursor_x = add32 s.cursor_x render_font_width } in
    if ltb s.mode.width (add32 moved.cursor_x render_font_width)
    then next_line bg_color moved
    else moved

unfoldable pub vga_put_char : Font → ℕ → ℕ → ℕ → Screen → Screen
vga_put_char font c fg_color bg_color s =
    if s.mode.framebuffer == 0
    then s
    else if c == 10
    then next_line bg_color s
    else if c == 13
    then record s { cursor_x = 0 }
    else advance bg_color (record s {
      bytes = put_rows font (ascii_index c) fg_color bg_color s base_font_height 0 s.bytes;
    })

-- `vga_print` reads the string in memory, which the pixels it puts may change.
unfoldable pub vga_print : Font → ℕ → ℕ → ℕ → ℕ → Screen → Run Screen
vga_print font zero str fg_color bg_color s = out_of_fuel
vga_print font (suc fuel) str fg_color bg_color s =
    let rest =
      vga_print font fuel (add32 str 1) fg_color bg_color
        (vga_put_char font (s.bytes str) fg_color bg_color s) in
    if s.bytes str == 0 then ok s else rest
