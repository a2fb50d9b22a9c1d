-- ===== src/Framebuffer/Text/Glyph.antt =====
-- The picture of a character.
use icosaos.Prelude.{
  ℕ, true, zero, suc, ◌+◌, ◌-◌, ◌*◌, ◌≤◌, ◌<◌, ◌^◌, ◌≡◌, inl, inr, refl, ◌∙◌, arith, ◌&&◌, add32,
  ◌==◌, ltb, leb, if◌then◌else◌, Bool-cases, bit_and, ◌<<<◌, ◌/◌, ◌%◌, u8, every, every-lt,
}
use icosaos.Framebuffer.{Mode, Screen, vga_read_pixel}
use icosaos.Framebuffer.Geometry.{IsMode, Inside}
use icosaos.Framebuffer.Pixels.{
  shown, vga_read_pixel-write, vga_write_pixel-memory, vga_write_pixel-AllBytes,
}
use icosaos.Framebuffer.Fill.{Draws}
use icosaos.Framebuffer.Text.{
  Font, pixel_color, put_dot, put_dots, put_block, put_columns, put_rows,
}

-- The color of a dot of a character: the bit of the font's byte, the lowest one on the left.
abbrev pub dot_color : Font → ℕ → ℕ → ℕ → ℕ → ℕ → ℕ
dot_color font c row col fg bg = if font c row % 256 / 2 ^ col % 2 == 1 then fg else bg

bit_table :
    every 256 (λ b.
      every 8 (λ k. if bit_and b (1 <<< k) == 0 then b / 2 ^ k % 2 == 0 else b / 2 ^ k % 2 == 1))
    ≡ true
unfolding every
bit_table = refl

pixel_color-dot_color :
    (font : Font) (c row col fg bg : ℕ)
    → col < 8
    → pixel_color font c row col fg bg ≡ dot_color font c row col fg bg
unfolding pixel_color
pixel_color-dot_color font c row col fg bg h =
    let bit = every-lt 8 _ (every-lt 256 _ bit_table (u8 (font c row)) (omega arith)) col h in
    ground (arith, bit)

-- A picture with the cell of a character at `(left, top)` drawn.
abbrev pub with_glyph : Font → ℕ → ℕ → ℕ → Mode → ℕ → ℕ → (ℕ → ℕ → ℕ) → ℕ → ℕ → ℕ
with_glyph font c fg bg m left top f x y =
    if (leb left x && ltb x (left + 8)) && (leb top y && ltb y (top + 8))
    then shown m (dot_color font c (y - top) (x - left) fg bg)
    else f x y

pub put_dot-Draws :
    (m : Mode) (x y color : ℕ) (b : ℕ → ℕ)
    → IsMode m
    → Draws m
        (λ x' y'. if x == x' && y == y' then shown m color else vga_read_pixel m x' y' b)
        b
        (put_dot m x y color b)
unfolding put_dot
put_dot-Draws m x y color b v = elim (Bool-cases (ltb x m.width && ltb y m.height)) [
  | inl inside ↦
      let i : Inside m x y = ground arith in
      rw inside (record {
        pixels = λ x' y' i'. vga_read_pixel-write m v x y color b x' y' i i';
        memory = λ a out. vga_write_pixel-memory m v x y color a b i out;
        all_bytes = vga_write_pixel-AllBytes m v x y color b;
      })
  | inr outside ↦
      rw outside
        (record { pixels = λ x' y' i'. ground arith; memory = λ a out. refl; all_bytes = λ h. h })
]

module _ (font : Font) (c fg bg : ℕ) (s : Screen) (v : IsMode s.mode) (hx : s.cursor_x + 8 < 2 ^ 32)
    (hy : s.cursor_y + 8 < 2 ^ 32) where
  put_columns-Draws :
      (row n col : ℕ) (b : ℕ → ℕ)
      → row < 8
      → col + n ≤ 8
      → Draws s.mode
          (λ x' y'.
            if (leb (s.cursor_x + col) x' && ltb x' (s.cursor_x + col + n))
              && y' == s.cursor_y + row
            then shown s.mode (pixel_color font c row (x' - s.cursor_x) fg bg)
            else vga_read_pixel s.mode x' y' b)
          b
          (put_columns font c fg bg s row n col b)
  unfolding put_columns put_block put_dots
  put_columns-Draws row zero col b hr h = record {
    pixels = λ x' y' i. ground arith;
    memory = λ a out. refl;
    all_bytes = λ h. h;
  }
  put_columns-Draws row (suc n) col b hr h =
      let left : add32 (add32 s.cursor_x (col * 1)) 0 ≡ s.cursor_x + col = omega arith in
      let top : add32 (add32 s.cursor_y (row * 1)) 0 ≡ s.cursor_y + row = omega arith in
      let color = pixel_color font c row col fg bg in
      let dot = put_dot-Draws s.mode (s.cursor_x + col) (s.cursor_y + row) color b v in
      let rest =
        put_columns-Draws row n (col + 1)
          (put_dot s.mode (s.cursor_x + col) (s.cursor_y + row) color b) hr (omega arith) in
      rw (left, top)
        (record {
          pixels = λ x' y' i. rest.pixels x' y' i ∙ elim (Bool-cases (s.cursor_x + col == x')) [
            | inl here ↦
                let e : x' - s.cursor_x ≡ col = ground arith in
                rw e (ground (arith, dot.pixels x' y' i))
            | inr there ↦ ground (arith, dot.pixels x' y' i)
          ];
          memory = λ a out. rest.memory a out ∙ dot.memory a out;
          all_bytes = λ h. rest.all_bytes (dot.all_bytes h);
        })

  put_rows-Draws :
      (n row : ℕ) (b : ℕ → ℕ)
      → row + n ≤ 8
      → Draws s.mode
          (λ x' y'.
            if (leb s.cursor_x x' && ltb x' (s.cursor_x + 8))
              && (leb (s.cursor_y + row) y' && ltb y' (s.cursor_y + row + n))
            then shown s.mode (pixel_color font c (y' - s.cursor_y) (x' - s.cursor_x) fg bg)
            else vga_read_pixel s.mode x' y' b)
          b
          (put_rows font c fg bg s n row b)
  unfolding put_rows
  put_rows-Draws zero row b h = record {
    pixels = λ x' y' i. ground arith;
    memory = λ a out. refl;
    all_bytes = λ h. h;
  }
  put_rows-Draws (suc n) row b h =
      let cells = put_columns-Draws row 8 0 b (omega arith) (omega arith) in
      let rest = put_rows-Draws n (row + 1) (put_columns font c fg bg s row 8 0 b) (omega arith) in
      record {
        pixels = λ x' y' i. rest.pixels x' y' i ∙ elim (Bool-cases (y' == s.cursor_y + row)) [
          | inl here ↦
              let e : y' - s.cursor_y ≡ row = ground arith in
              rw e (ground (arith, cells.pixels x' y' i))
          | inr there ↦ ground (arith, cells.pixels x' y' i)
        ];
        memory = λ a out. rest.memory a out ∙ cells.memory a out;
        all_bytes = λ h. rest.all_bytes (cells.all_bytes h);
      }

  pub glyph-Draws :
      (b : ℕ → ℕ)
      → Draws s.mode
          (with_glyph font c fg bg s.mode s.cursor_x s.cursor_y
            (λ x y. vga_read_pixel s.mode x y b))
          b
          (put_rows font c fg bg s 8 0 b)
  glyph-Draws b =
      let all = put_rows-Draws 8 0 b (omega arith) in
      record {
        pixels = λ x y i.
            all.pixels x y i ∙ elim (Bool-cases (leb s.cursor_x x && ltb x (s.cursor_x + 8))) [
              | inl within ↦
                  let e =
                    pixel_color-dot_color font c (y - s.cursor_y) (x - s.cursor_x) fg bg
                      (ground arith) in
                  rw e (ground arith)
              | inr outside ↦ ground arith
            ];
        memory = all.memory;
        all_bytes = all.all_bytes;
      }
