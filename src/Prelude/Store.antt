-- ===== src/Prelude/Store.antt =====
-- Words in a memory of bytes.
use Prim.Native.Nat.{ℕ, ◌+◌, ◌*◌, ◌/◌, ◌%◌, ◌^◌, ◌≤◌, ◌<◌}
use mathlib.Core.Path.{◌≡◌}
use mathlib.Core.Logic.{◌⊎◌}
use native.Mathlib.Omega.{arith}
use icosaos.Prelude.Words.{add32, update}

-- A `uint32_t` in memory, the low byte first.
unfoldable pub store32 : ℕ → ℕ → (ℕ → ℕ) → ℕ → ℕ
store32 at value bytes =
    update
      (update (update (update bytes at (value % 256)) (add32 at 1) (value / 256 % 256)) (add32 at 2)
        (value / 65536 % 256))
      (add32 at 3) (value / 16777216 % 256)

unfoldable pub load32 : ℕ → (ℕ → ℕ) → ℕ
load32 at bytes =
    bytes at + 256 * bytes (add32 at 1) + 65536 * bytes (add32 at 2) + 16777216 * bytes (add32 at 3)

-- A `uint16_t` in memory.
unfoldable pub load16 : ℕ → (ℕ → ℕ) → ℕ
load16 at bytes = bytes at + 256 * bytes (add32 at 1)

abbrev pub AllBytes : (ℕ → ℕ) → Type 0
AllBytes bytes = (a : ℕ) → bytes a < 256

pub store32-outside :
    (at value a : ℕ) (bytes : ℕ → ℕ)
    → at + 3 < 2 ^ 32
    → (a < at) ⊎ (at + 4 ≤ a)
    → store32 at value bytes a ≡ bytes a
unfolding store32
store32-outside at value a bytes h out = ground arith

pub load32-same :
    (at : ℕ) (b b' : ℕ → ℕ)
    → at + 3 < 2 ^ 32
    → ((a : ℕ) → at ≤ a → a < at + 4 → b' a ≡ b a)
    → load32 at b' ≡ load32 at b
unfolding load32
load32-same at b b' h same = omega (
  arith,
  same at (omega arith) (omega arith),
  same (add32 at 1) (omega arith) (omega arith),
  same (add32 at 2) (omega arith) (omega arith),
  same (add32 at 3) (omega arith) (omega arith),
)

pub load32-store32 :
    (at value : ℕ) (bytes : ℕ → ℕ)
    → at + 3 < 2 ^ 32
    → load32 at (store32 at value bytes) ≡ value % 2 ^ 32
unfolding load32 store32
load32-store32 at value bytes h = ground arith

pub load32-lt :
    (at : ℕ) (bytes : ℕ → ℕ) → AllBytes bytes → load32 at bytes % 2 ^ 32 ≡ load32 at bytes
unfolding load32
load32-lt at bytes h = omega (arith, h at, h (add32 at 1), h (add32 at 2), h (add32 at 3))
