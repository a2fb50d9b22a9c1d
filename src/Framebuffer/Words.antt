-- ===== src/Framebuffer/Words.antt =====
-- The words and the three bytes of pixels in memory, written and read.
use icosaos.Prelude.{
  ℕ, ◌+◌, ◌*◌, ◌/◌, ◌%◌, ◌≤◌, ◌<◌, ◌^◌, ◌≡◌, ◌⊎◌, ◌∙◌, arith, bit_or, add32, AllBytes,
}
use icosaos.Prelude.Bits.{and-mask, or-shifted}
use icosaos.Framebuffer.{store24, load24}

pub store24-outside :
    (at value a : ℕ) (bytes : ℕ → ℕ)
    → at + 2 < 2 ^ 32
    → (a < at) ⊎ (at + 3 ≤ a)
    → store24 at value bytes a ≡ bytes a
unfolding store24
store24-outside at value a bytes h out = ground arith

pub load24-same :
    (at : ℕ) (b b' : ℕ → ℕ)
    → at + 2 < 2 ^ 32
    → ((a : ℕ) → at ≤ a → a < at + 3 → b' a ≡ b a)
    → load24 at b' ≡ load24 at b
unfolding load24
load24-same at b b' h same = rw (
  same at (omega arith) (omega arith),
  same (add32 at 1) (omega arith) (omega arith),
  same (add32 at 2) (omega arith) (omega arith),
)

join24 :
    (c : ℕ)
    → bit_or (bit_or (c % 256) (c / 256 % 256 * 2 ^ 8)) (c / 65536 % 256 * 2 ^ 16) ≡ c % 2 ^ 24
join24 c =
    rw (or-shifted 8 (c % 256) (c / 256 % 256) (omega arith)) (
      or-shifted 16 (c / 256 % 256 * 2 ^ 8 + c % 256) (c / 65536 % 256) (omega arith) ∙ omega arith)

store24-at :
    (at value : ℕ) (bytes : ℕ → ℕ)
    → at + 2 < 2 ^ 32
    → (store24 at value bytes at ≡ value % 256)
      × (store24 at value bytes (add32 at 1) ≡ value / 256 % 256)
      × (store24 at value bytes (add32 at 2) ≡ value / 65536 % 256)
unfolding store24
store24-at at value bytes h =
    rw (and-mask 8 value, and-mask 8 (value / 256), and-mask 8 (value / 65536)) (ground arith)

pub load24-store24 :
    (at value : ℕ) (bytes : ℕ → ℕ)
    → at + 2 < 2 ^ 32
    → load24 at (store24 at value bytes) ≡ value % 2 ^ 24
unfolding load24
load24-store24 at value bytes h =
    let (blue, green, red) = store24-at at value bytes h in rw (blue, green, red) (join24 value)

pub load24-lt :
    (at : ℕ) (bytes : ℕ → ℕ) → AllBytes bytes → load24 at bytes % 2 ^ 24 ≡ load24 at bytes
unfolding load24
load24-lt at bytes h =
    let blue = h at in
    let green = h (add32 at 1) in
    let red = h (add32 at 2) in
    rw (or-shifted 8 (bytes at) (bytes (add32 at 1)) (omega arith)) (
      rw (or-shifted 16 (bytes (add32 at 1) * 2 ^ 8 + bytes at) (bytes (add32 at 2)) (omega arith))
        (omega arith))
