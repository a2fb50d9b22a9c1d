-- ===== src/Framebuffer/Pixels.antt =====
-- Writing and reading a pixel, against the picture as a function of the coordinates.
use icosaos.Prelude.{
  ℕ, ◌+◌, ◌*◌, ◌%◌, ◌≤◌, ◌<◌, ◌^◌, ◌≡◌, ◌⊎◌, inl, inr, sym, ap, ◌∙◌, arith, true, false, ◌&&◌,
  add32, mul32, ◌==◌, if◌then◌else◌, Bool-cases, AllBytes, store32, store32-outside, load32-same,
  load32-store32, load32-lt,
}
use icosaos.Framebuffer.{Mode, row_ptr, store24, vga_write_pixel, vga_read_pixel}
use icosaos.Framebuffer.Geometry.{IsMode, Inside, pixel_size, address, rows_apart}
use icosaos.Framebuffer.Words.{store24-outside, load24-same, load24-store24, load24-lt}

-- The color that a pixel can show.
abbrev pub shown : Mode → ℕ → ℕ
shown m color = color % 2 ^ m.bpp

-- The pixels of a sound mode.
module _ (m : Mode) (v : IsMode m) where
  row_ptr-Inside : (x y : ℕ) → Inside m x y → row_ptr m y ≡ m.framebuffer + y * m.pitch
  row_ptr-Inside x y (hx, hy) =
      let rows = rows_apart y m.height m.pitch hy in let room = v.room in omega (arith, rows, room)

  row_end : (x y : ℕ) → Inside m x y → x * pixel_size m + pixel_size m ≤ m.pitch
  row_end x y (hx, hy) = omega (arith, rows_apart x m.width (pixel_size m) hx, v.stride)

  address-lt :
      (x y : ℕ) → Inside m x y → address m x y + pixel_size m ≤ m.framebuffer + m.height * m.pitch
  address-lt x y (hx, hy) = omega (arith, rows_apart y m.height m.pitch hy, row_end x y (hx, hy))

  pixel_ptr :
      (x y : ℕ) → Inside m x y → add32 (row_ptr m y) (mul32 x (pixel_size m)) ≡ address m x y
  pixel_ptr x y h = omega (arith, row_ptr-Inside x y h, address-lt x y h, row_end x y h, v.room)

  -- The code's pointer and its test, at either depth.
  at_depth :
      (x y : ℕ)
      → Inside m x y
      → ((m.bpp == 32) ≡ true)
          × (pixel_size m ≡ 4)
          × (add32 (row_ptr m y) (mul32 x 4) ≡ address m x y)
          × (m.bpp ≡ 32)
        ⊎ ((m.bpp == 32) ≡ false)
          × ((m.bpp == 24) ≡ true)
          × (pixel_size m ≡ 3)
          × (add32 (row_ptr m y) (mul32 x 3) ≡ address m x y)
          × (m.bpp ≡ 24)
  at_depth x y h = elim v.depth [
    | inl e ↦
        let four : pixel_size m ≡ 4 = omega arith in
        inl (
          ground arith,
          four,
          ap (λ (k : ℕ). add32 (row_ptr m y) (mul32 x k)) (sym four) ∙ pixel_ptr x y h,
          e,
        )
    | inr e ↦
        let three : pixel_size m ≡ 3 = omega arith in
        inr (
          ground arith,
          ground arith,
          three,
          ap (λ (k : ℕ). add32 (row_ptr m y) (mul32 x k)) (sym three) ∙ pixel_ptr x y h,
          e,
        )
  ]

  -- A pixel is written within its own bytes.
  pub vga_write_pixel-outside :
      (x y color a : ℕ) (bytes : ℕ → ℕ)
      → Inside m x y
      → (a < address m x y) ⊎ (address m x y + pixel_size m ≤ a)
      → vga_write_pixel m x y color bytes a ≡ bytes a
  unfolding vga_write_pixel
  vga_write_pixel-outside x y color a bytes h out =
      let room = v.room in
      let below = address-lt x y h in
      elim (at_depth x y h) [
        | inl (d, four, at, e) ↦
            rw (d, at) (store32-outside (address m x y) color a bytes (omega arith) (ground arith))
        | inr (d, d', three, at, e) ↦
            rw (d, d', at)
              (store24-outside (address m x y) color a bytes (omega arith) (ground arith))
      ]

  vga_read_pixel-same :
      (x y : ℕ) (b b' : ℕ → ℕ)
      → Inside m x y
      → ((a : ℕ) → address m x y ≤ a → a < address m x y + pixel_size m → b' a ≡ b a)
      → vga_read_pixel m x y b' ≡ vga_read_pixel m x y b
  unfolding vga_read_pixel
  vga_read_pixel-same x y b b' h same =
      let room = v.room in
      let below = address-lt x y h in
      elim (at_depth x y h) [
        | inl (d, four, at, e) ↦
            rw (d, at)
              (load32-same (address m x y) b b' (omega arith) (λ a p q. same a p (omega arith)))
        | inr (d, d', three, at, e) ↦
            rw (d, d', at)
              (load24-same (address m x y) b b' (omega arith) (λ a p q. same a p (omega arith)))
      ]

  vga_read_pixel_self :
      (x y color : ℕ) (bytes : ℕ → ℕ)
      → Inside m x y
      → vga_read_pixel m x y (vga_write_pixel m x y color bytes) ≡ shown m color
  unfolding vga_read_pixel vga_write_pixel
  vga_read_pixel_self x y color bytes h =
      let room = v.room in
      let below = address-lt x y h in
      elim (at_depth x y h) [
        | inl (d, four, at, e) ↦
            rw (d, at)
              (load32-store32 (address m x y) color bytes (omega arith)
                ∙ ap (λ (k : ℕ). color % 2 ^ k) (sym e))
        | inr (d, d', three, at, e) ↦
            rw (d, d', at)
              (load24-store24 (address m x y) color bytes (omega arith)
                ∙ ap (λ (k : ℕ). color % 2 ^ k) (sym e))
      ]

  -- Two pixels share no byte.
  apart :
      (x y x' y' : ℕ)
      → Inside m x y
      → Inside m x' y'
      → (x == x' && y == y') ≡ false
      → (address m x' y' + pixel_size m ≤ address m x y)
        ⊎ (address m x y + pixel_size m ≤ address m x' y')
  apart x y x' y' h h' ne = ground (
    arith,
    rows_apart y y' m.pitch,
    rows_apart y' y m.pitch,
    rows_apart x x' (pixel_size m),
    rows_apart x' x (pixel_size m),
    row_end x y h,
    row_end x' y' h',
  )

  -- Reading after writing a pixel: the color for that pixel, and every other as before.
  pub vga_read_pixel-write :
      (x y color : ℕ) (bytes : ℕ → ℕ) (x' y' : ℕ)
      → Inside m x y
      → Inside m x' y'
      → vga_read_pixel m x' y' (vga_write_pixel m x y color bytes)
        ≡ (if x == x' && y == y' then shown m color else vga_read_pixel m x' y' bytes)
  vga_read_pixel-write x y color bytes x' y' h h' = elim (Bool-cases (x == x' && y == y')) [
    | inl same ↦
        let ex : x ≡ x' = ground arith in
        let ey : y ≡ y' = ground arith in
        rw same (rw (← ex, ← ey) (vga_read_pixel_self x y color bytes h))
    | inr other ↦ rw other (
        vga_read_pixel-same x' y' bytes _ h' (λ a p q.
          vga_write_pixel-outside x y color a bytes h (elim (apart x y x' y' h h' other) [
            | inl f ↦ inl (omega arith)
            | inr f ↦ inr (omega arith)
          ])))
  ]

  -- Memory around the framebuffer is left alone.
  pub vga_write_pixel-memory :
      (x y color a : ℕ) (bytes : ℕ → ℕ)
      → Inside m x y
      → (a < m.framebuffer) ⊎ (m.framebuffer + m.height * m.pitch ≤ a)
      → vga_write_pixel m x y color bytes a ≡ bytes a
  vga_write_pixel-memory x y color a bytes h out =
      let below = address-lt x y h in
      vga_write_pixel-outside x y color a bytes h
        (elim out [ inl f ↦ inl (omega arith) | inr f ↦ inr (omega arith) ])

  pub vga_write_pixel-AllBytes :
      (x y color : ℕ) (bytes : ℕ → ℕ)
      → AllBytes bytes
      → AllBytes (vga_write_pixel m x y color bytes)
  unfolding vga_write_pixel store32 store24
  vga_write_pixel-AllBytes x y color bytes h a = ground (arith, h a)

  -- A color that was read can be shown.
  pub shown-vga_read_pixel :
      (x y : ℕ) (bytes : ℕ → ℕ)
      → Inside m x y
      → AllBytes bytes
      → shown m (vga_read_pixel m x y bytes) ≡ vga_read_pixel m x y bytes
  unfolding vga_read_pixel
  shown-vga_read_pixel x y bytes h all = elim (at_depth x y h) [
    | inl (d, four, at, e) ↦ rw (d, e) (load32-lt _ bytes all)
    | inr (d, d', three, at, e) ↦ rw (d, d', e) (load24-lt _ bytes all)
  ]
