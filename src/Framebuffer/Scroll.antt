-- ===== src/Framebuffer/Scroll.antt =====
-- Scrolling by one line of text.
use icosaos.Prelude.{
  ℕ, zero, suc, ◌+◌, ◌-◌, ◌≤◌, ◌<◌, ◌≡◌, refl, ◌∙◌, arith, false, ◌&&◌, add32, sub32, ◌==◌, ltb,
  leb, if◌then◌else◌, AllBytes,
}
use icosaos.Framebuffer.{
  Mode, Screen, vga_write_pixel, vga_read_pixel, copy_columns, copy_rows, vga_clear_rect,
  vga_scroll,
}
use icosaos.Framebuffer.Geometry.{IsMode, Inside}
use icosaos.Framebuffer.Pixels.{
  shown, vga_read_pixel-write, vga_write_pixel-memory, vga_write_pixel-AllBytes,
  shown-vga_read_pixel,
}
use icosaos.Framebuffer.Fill.{Draws, vga_clear_rect-Draws}

-- A picture moved up by eight rows, with the last eight in one color.
abbrev pub scrolled : Mode → ℕ → (ℕ → ℕ → ℕ) → ℕ → ℕ → ℕ
scrolled m bg_color f x y = if ltb y (m.height - 8) then f x (y + 8) else shown m bg_color

module _ (m : Mode) (v : IsMode m) where
  copy_columns-Draws :
      (n x y : ℕ) (b : ℕ → ℕ)
      → x + n ≤ m.width
      → y + 8 < m.height
      → AllBytes b
      → Draws m
          (λ x' y'.
            if (leb x x' && ltb x' (x + n)) && y' == y
            then vga_read_pixel m x' (y + 8) b
            else vga_read_pixel m x' y' b)
          b
          (copy_columns m n x y b)
  unfolding copy_columns
  copy_columns-Draws zero x y b hx hy all = record {
    pixels = λ x' y' i. ground arith;
    memory = λ a out. refl;
    all_bytes = λ h. h;
  }
  copy_columns-Draws (suc n) x y b hx hy all =
      let sizes = v.sizes in
      let i : Inside m x y = omega arith in
      let below : Inside m x (y + 8) = omega arith in
      let e : add32 y 8 ≡ y + 8 = omega arith in
      let color = vga_read_pixel m x (y + 8) b in
      let b1 = vga_write_pixel m x y color b in
      let rest =
        copy_columns-Draws n (x + 1) y b1 (omega arith) hy
          (vga_write_pixel-AllBytes m v x y color b all) in
      rw e (record {
        pixels = λ x' y' i'.
            rest.pixels x' y' i'
            ∙ ground (
              arith,
              vga_read_pixel-write m v x y color b x' y' i i',
              vga_read_pixel-write m v x y color b x' (y + 8) i,
              shown-vga_read_pixel m v x (y + 8) b below all,
            );
        memory = λ a out. rest.memory a out ∙ vga_write_pixel-memory m v x y color a b i out;
        all_bytes = λ h. rest.all_bytes (vga_write_pixel-AllBytes m v x y color b h);
      })

  copy_rows-Draws :
      (n y : ℕ) (b : ℕ → ℕ)
      → y + n + 8 ≤ m.height
      → AllBytes b
      → Draws m
          (λ x' y'.
            if leb y y' && ltb y' (y + n)
            then vga_read_pixel m x' (y' + 8) b
            else vga_read_pixel m x' y' b)
          b
          (copy_rows m n y b)
  unfolding copy_rows
  copy_rows-Draws zero y b hy all = record {
    pixels = λ x' y' i. ground arith;
    memory = λ a out. refl;
    all_bytes = λ h. h;
  }
  copy_rows-Draws (suc n) y b hy all =
      let row = copy_columns-Draws m.width 0 y b (omega arith) (omega arith) all in
      let rest =
        copy_rows-Draws n (y + 1) (copy_columns m m.width 0 y b) (omega arith)
          (row.all_bytes all) in
      record {
        pixels = λ x' y' i.
            rest.pixels x' y' i ∙ ground (arith, row.pixels x' y' i, row.pixels x' (y' + 8));
        memory = λ a out. rest.memory a out ∙ row.memory a out;
        all_bytes = λ h. rest.all_bytes (row.all_bytes h);
      }

  vga_scroll_bytes :
      (bg_color : ℕ) (b : ℕ → ℕ)
      → 8 < m.height
      → AllBytes b
      → Draws m
          (scrolled m bg_color (λ x y. vga_read_pixel m x y b))
          b
          (vga_clear_rect m 0 (m.height - 8) m.width 8 bg_color (copy_rows m (m.height - 8) 0 b))
  vga_scroll_bytes bg_color b tall all =
      let sizes = v.sizes in
      let up = copy_rows-Draws (m.height - 8) 0 b (omega arith) all in
      let wiped =
        vga_clear_rect-Draws m v 0 (m.height - 8) m.width 8 bg_color
          (copy_rows m (m.height - 8) 0 b) (omega arith) (omega arith) in
      record {
        pixels = λ x y i. wiped.pixels x y i ∙ ground (arith, up.pixels x y i);
        memory = λ a out. wiped.memory a out ∙ up.memory a out;
        all_bytes = λ h. wiped.all_bytes (up.all_bytes h);
      }

-- On a sound mode of more than eight rows `vga_scroll` moves the picture up by eight rows, gives the
-- last eight rows the color, puts the cursor's row there, and leaves all memory around the
-- framebuffer as it was.
pub vga_scroll-Draws :
    (bg_color : ℕ) (s : Screen)
    → IsMode s.mode
    → 8 < s.mode.height
    → AllBytes s.bytes
    → Draws s.mode
        (scrolled s.mode bg_color (λ x y. vga_read_pixel s.mode x y s.bytes))
        s.bytes
        (vga_scroll bg_color s).bytes
      × (vga_scroll bg_color s
          ≡ record s { bytes = (vga_scroll bg_color s).bytes; cursor_y = s.mode.height - 8 })
unfolding vga_scroll
vga_scroll-Draws bg_color s v tall all =
    let sizes = v.sizes in
    let more : leb s.mode.height 8 ≡ false = ground arith in
    let e : sub32 s.mode.height 8 ≡ s.mode.height - 8 = omega arith in
    rw (more, e) (vga_scroll_bytes s.mode v bg_color s.bytes tall all, refl)
