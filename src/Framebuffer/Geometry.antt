-- ===== src/Framebuffer/Geometry.antt =====
-- When a mode is sound, and where its pixels lie.
use icosaos.Prelude.{ℕ, ◌+◌, ◌*◌, ◌/◌, ◌≤◌, ◌<◌, ◌^◌, ◌≡◌, ◌⊎◌, arith}
use icosaos.Framebuffer.{Mode}

abbrev pub pixel_size : Mode → ℕ
pixel_size m = m.bpp / 8

-- The framebuffer lies in the address space, with 24 or 32 bits a pixel and rows of at least the
-- bytes of their pixels.
pub record IsMode (m : Mode) : Type 0 where
  pub depth : (m.bpp ≡ 32) ⊎ (m.bpp ≡ 24)
  pub stride : m.width * pixel_size m ≤ m.pitch
  pub room : m.framebuffer + m.height * m.pitch < 2 ^ 32
  pub there : 0 < m.framebuffer
  pub sizes : (m.width < 2 ^ 32) × (m.height < 2 ^ 32)

abbrev pub Inside : Mode → ℕ → ℕ → Type 0
Inside m x y = (x < m.width) × (y < m.height)

abbrev pub address : Mode → ℕ → ℕ → ℕ
address m x y = m.framebuffer + y * m.pitch + x * pixel_size m

pub rows_apart : (y y' p : ℕ) → y < y' → y * p + p ≤ y' * p
rows_apart y y' p h = grind arith
