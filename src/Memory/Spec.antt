-- ===== src/Memory/Spec.antt =====
-- The allocator seen as a set of used pages.
use icosaos.Prelude.{ℕ, ◌*◌, ◌/◌, ◌%◌, ◌^◌, ◌≤◌, ◌<◌, ◌≡◌, Bool, true, not}
use icosaos.Memory.{Allocator, is_clear}

-- Is page `p` marked used in the bitmap?
abbrev pub used : Allocator → ℕ → Bool
used a p = not (is_clear (a.bitmap (p / 8)) (p % 8))

-- An allocator for a machine of at most 4 GiB: bytes, the size of the bitmap that goes with the number
-- of pages, and page 0 reserved.
pub record IsValid (a : Allocator) : Type 0 where
  pub bytes : (i : ℕ) → a.bitmap i < 256
  pub sized : a.bitmap_size_bytes ≡ a.total_pages / 8
  pub addressable : a.total_pages ≤ 2 ^ 20
  pub page_zero : used a 0 ≡ true

-- The pages of the whole bytes of the bitmap: those that `alloc_page` looks at.
abbrev pub managed : Allocator → ℕ
managed a = a.bitmap_size_bytes * 8
