-- ===== src/Framebuffer/Text/Put.antt =====
-- Characters on a ready screen.
use icosaos.Prelude.{ℕ, ◌+◌, ◌≡◌, inl, inr, ◌∙◌, arith, false, ◌==◌, ltb, if◌then◌else◌, Bool-cases}
use icosaos.Framebuffer.{Mode, Screen, vga_read_pixel}
use icosaos.Framebuffer.Geometry.{Inside}
use icosaos.Framebuffer.Fill.{Draws}
use icosaos.Framebuffer.Text.{Font, ascii_index, put_rows, vga_put_char}
use icosaos.Framebuffer.Text.Glyph.{with_glyph, glyph-Draws}
use icosaos.Framebuffer.Text.Place.{
  IsReady, IsReady-small, Shows, last_line, last_column, line_after, picture_after, advance-Shows,
}

-- The picture after a character, whose cell may fill the last line.
abbrev pub put_picture : Font → ℕ → ℕ → ℕ → Screen → ℕ → ℕ → ℕ
put_picture font c fg bg s =
    if last_column s.mode s.cursor_x
    then picture_after s.mode bg s.cursor_y (
        with_glyph font (if ltb 127 c then 0 else c) fg bg s.mode s.cursor_x s.cursor_y
          (λ x y. vga_read_pixel s.mode x y s.bytes))
    else with_glyph font (if ltb 127 c then 0 else c) fg bg s.mode s.cursor_x s.cursor_y
        (λ x y. vga_read_pixel s.mode x y s.bytes)

-- One drawing after another.
Draws-after :
    (m : Mode) (f g : ℕ → ℕ → ℕ) (b b1 b2 : ℕ → ℕ)
    → Draws m f b b1
    → Draws m g b1 b2
    → Draws m g b b2
Draws-after m f g b b1 b2 first second = record {
  pixels = second.pixels;
  memory = λ a out. second.memory a out ∙ first.memory a out;
  all_bytes = λ h. second.all_bytes (first.all_bytes h);
}

-- A drawing under another picture that agrees with it on the screen.
Draws-as :
    (m : Mode) (f g : ℕ → ℕ → ℕ) (b b' : ℕ → ℕ)
    → ((x y : ℕ) → Inside m x y → f x y ≡ g x y)
    → Draws m f b b'
    → Draws m g b b'
Draws-as m f g b b' same d = record {
  pixels = λ x y i. d.pixels x y i ∙ same x y i;
  memory = d.memory;
  all_bytes = d.all_bytes;
}

picture_after-as :
    (m : Mode) (bg line : ℕ) (f g : ℕ → ℕ → ℕ)
    → ((x y : ℕ) → Inside m x y → f x y ≡ g x y)
    → (x y : ℕ) → Inside m x y
    → picture_after m bg line f x y ≡ picture_after m bg line g x y
picture_after-as m bg line f g same x y i = elim (Bool-cases (last_line m line)) [
  | inl last ↦ rw last (ground (arith, same x (y + 8)))
  | inr more ↦ rw more (same x y i)
]

put_picture-as :
    (font : Font) (c fg bg : ℕ) (s : Screen) (drawn : ℕ → ℕ)
    → Draws s.mode
        (with_glyph font
          (ascii_index c)
          fg
          bg
          s.mode
          s.cursor_x
          s.cursor_y
          (λ x y. vga_read_pixel s.mode x y s.bytes))
        s.bytes
        drawn
    → (x y : ℕ) → Inside s.mode x y
    → (if last_column s.mode s.cursor_x
          then picture_after s.mode bg s.cursor_y (λ x y. vga_read_pixel s.mode x y drawn)
          else λ x y. vga_read_pixel s.mode x y drawn)
        x y
      ≡ put_picture font c fg bg s x y
unfolding ascii_index
put_picture-as font c fg bg s drawn cell x y i = elim (Bool-cases (last_column s.mode s.cursor_x)) [
  | inl last ↦ rw last (picture_after-as s.mode bg s.cursor_y _ _ cell.pixels x y i)
  | inr more ↦ rw more (cell.pixels x y i)
]

-- On a ready screen `vga_put_char` of a character that is neither a newline nor a carriage return
-- draws the eight rows of its picture in the cell at the cursor, from the font's bytes with the lowest
-- bit on the left, moves the cursor by a cell or, from the last cell of a line, to the start of the
-- next, and in the last line scrolls instead. All memory around the framebuffer is left as it was.
pub vga_put_char-Shows :
    (font : Font) (c fg bg : ℕ) (s : Screen)
    → IsReady s
    → (c == 10) ≡ false
    → (c == 13) ≡ false
    → Shows s.mode
        (put_picture font c fg bg s)
        (if last_column s.mode s.cursor_x then 0 else s.cursor_x + 8)
        (if last_column s.mode s.cursor_x then line_after s.mode s.cursor_y else s.cursor_y)
        s.bytes
        (vga_put_char font c fg bg s)
unfolding vga_put_char ascii_index
vga_put_char-Shows font c fg bg s r not_newline not_return =
    let there = r.sound.there in
    let (wide, high) = IsReady-small s r in
    let column = r.column in
    let line = r.line in
    let on : (s.mode.framebuffer == 0) ≡ false = ground arith in
    let drawn = put_rows font (ascii_index c) fg bg s 8 0 s.bytes in
    let cell =
      glyph-Draws font (ascii_index c) fg bg s r.sound (omega arith) (omega arith) s.bytes in
    let r' : IsReady (record s { bytes = drawn }) = record {
      sound = r.sound;
      tall = r.tall;
      column = column;
      line = line;
      all = cell.all_bytes r.all;
    } in
    let moved = advance-Shows bg (record s { bytes = drawn }) r' in
    rw (on, not_newline, not_return)
      (record {
        same_mode = moved.same_mode;
        picture =
            Draws-after s.mode _ _ s.bytes drawn _ cell (
              Draws-as s.mode _ _ drawn _ (put_picture-as font c fg bg s drawn cell) moved.picture);
        at_x = moved.at_x;
        at_y = moved.at_y;
      })
