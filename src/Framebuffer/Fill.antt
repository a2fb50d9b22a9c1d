-- ===== src/Framebuffer/Fill.antt =====
-- Filling rectangles and clearing the screen.
use icosaos.Prelude.{
  ℕ, zero, suc, ◌+◌, ◌*◌, ◌≤◌, ◌<◌, ◌^◌, ◌≡◌, ◌⊎◌, inl, inr, refl, ◌∙◌, arith, false, ◌&&◌, add32,
  ◌==◌, ltb, leb, if◌then◌else◌, Bool-cases, AllBytes,
}
use icosaos.Framebuffer.{
  Mode, Screen, vga_write_pixel, vga_read_pixel, fill_columns, fill_rows, vga_clear_rect,
  vga_clear_screen,
}
use icosaos.Framebuffer.Geometry.{IsMode, Inside}
use icosaos.Framebuffer.Pixels.{
  shown, vga_read_pixel-write, vga_write_pixel-memory, vga_write_pixel-AllBytes,
}

-- The memory `b'` shows the picture `f`, and differs from `b` within the framebuffer only.
pub record Draws (m : Mode) (f : ℕ → ℕ → ℕ) (b b' : ℕ → ℕ) : Type 0 where
  pub pixels : (x y : ℕ) → Inside m x y → vga_read_pixel m x y b' ≡ f x y
  pub memory : (a : ℕ) → (a < m.framebuffer) ⊎ (m.framebuffer + m.height * m.pitch ≤ a) → b' a ≡ b a
  pub all_bytes : AllBytes b → AllBytes b'

-- The picture with the rectangle from `(x, y)` up to `(x_end, y_end)` in one color.
abbrev pub filled : Mode → ℕ → ℕ → ℕ → ℕ → ℕ → (ℕ → ℕ) → ℕ → ℕ → ℕ
filled m x x_end y y_end color b x' y' =
    if (leb x x' && ltb x' x_end) && (leb y y' && ltb y' y_end)
    then shown m color
    else vga_read_pixel m x' y' b

module _ (m : Mode) (v : IsMode m) where
  fill_columns-Draws :
      (n x x_end y color : ℕ) (b : ℕ → ℕ)
      → x_end ≤ x + n
      → y < m.height
      → Draws m (filled m x x_end y (y + 1) color b) b (fill_columns m n x x_end y color b)
  unfolding fill_columns
  fill_columns-Draws zero x x_end y color b h hy = record {
    pixels = λ x' y' i. ground arith;
    memory = λ a out. refl;
    all_bytes = λ h. h;
  }
  fill_columns-Draws (suc n) x x_end y color b h hy =
      elim (Bool-cases (ltb x x_end && ltb x m.width)) [
        | inl more ↦
            let i : Inside m x y = ground arith in
            let rest =
              fill_columns-Draws n (x + 1) x_end y color (vga_write_pixel m x y color b)
                (omega arith) hy in
            rw more (record {
              pixels = λ x' y' i'.
                  rest.pixels x' y' i'
                  ∙ ground (arith, vga_read_pixel-write m v x y color b x' y' i i');
              memory = λ a out. rest.memory a out ∙ vga_write_pixel-memory m v x y color a b i out;
              all_bytes = λ h. rest.all_bytes (vga_write_pixel-AllBytes m v x y color b h);
            })
        | inr done ↦ rw done (record {
          pixels = λ x' y' i'. ground arith;
          memory = λ a out. refl;
          all_bytes = λ h. h;
        })
      ]

  pub fill_rows-Draws :
      (n y y_end x w color : ℕ) (b : ℕ → ℕ)
      → y_end ≤ y + n
      → x + w < 2 ^ 32
      → Draws m (filled m x (x + w) y y_end color b) b (fill_rows m n y y_end x w color b)
  unfolding fill_rows
  fill_rows-Draws zero y y_end x w color b h hx = record {
    pixels = λ x' y' i. ground arith;
    memory = λ a out. refl;
    all_bytes = λ h. h;
  }
  fill_rows-Draws (suc n) y y_end x w color b h hx =
      let e : add32 x w ≡ x + w = omega arith in
      elim (Bool-cases (ltb y y_end && ltb y m.height)) [
        | inl more ↦
            let row = fill_columns-Draws w x (x + w) y color b (omega arith) (ground arith) in
            let rest =
              fill_rows-Draws n (y + 1) y_end x w color (fill_columns m w x (x + w) y color b)
                (omega arith) hx in
            rw (more, e)
              (record {
                pixels = λ x' y' i. rest.pixels x' y' i ∙ ground (arith, row.pixels x' y' i);
                memory = λ a out. rest.memory a out ∙ row.memory a out;
                all_bytes = λ h. rest.all_bytes (row.all_bytes h);
              })
        | inr done ↦ rw done (record {
          pixels = λ x' y' i. ground arith;
          memory = λ a out. refl;
          all_bytes = λ h. h;
        })
      ]

  -- On a sound mode `vga_clear_rect` gives the pixels of the screen in its rectangle the color and
  -- leaves the others and all memory around the framebuffer as they were, for any rectangle whose
  -- ends are 32-bit numbers, on the screen or not.
  pub vga_clear_rect-Draws :
      (x y w h color : ℕ) (b : ℕ → ℕ)
      → x + w < 2 ^ 32
      → y + h < 2 ^ 32
      → Draws m (filled m x (x + w) y (y + h) color b) b (vga_clear_rect m x y w h color b)
  unfolding vga_clear_rect
  vga_clear_rect-Draws x y w h color b hx hy =
      let e : add32 y h ≡ y + h = omega arith in
      rw e (fill_rows-Draws h y (y + h) x w color b (omega arith) hx)

-- On a sound mode `vga_clear_screen` gives every pixel of the screen the color, and leaves the cursor
-- and all memory around the framebuffer as they were.
pub vga_clear_screen-Draws :
    (color : ℕ) (s : Screen)
    → IsMode s.mode
    → Draws s.mode (λ x y. shown s.mode color) s.bytes (vga_clear_screen color s).bytes
      × ((vga_clear_screen color s).cursor_x ≡ s.cursor_x)
      × ((vga_clear_screen color s).cursor_y ≡ s.cursor_y)
unfolding vga_clear_screen
vga_clear_screen-Draws color s v =
    let there = v.there in
    let on : (s.mode.framebuffer == 0) ≡ false = ground arith in
    let sizes = v.sizes in
    let all =
      fill_rows-Draws s.mode v s.mode.height 0 s.mode.height 0 s.mode.width color s.bytes
        (omega arith) (omega arith) in
    rw on (
      record {
        pixels = λ x y i. all.pixels x y i ∙ ground arith;
        memory = all.memory;
        all_bytes = all.all_bytes;
      },
      refl,
      refl,
    )
