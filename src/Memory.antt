-- ===== src/Memory.antt =====
-- src/kernel/memory.c: the allocator of physical 4 KiB frames over a bitmap. The bitmap is raw
-- memory behind `&end`, so it is a function of the byte's offset: a write behind its last byte
-- lands in that memory too. A pointer is its address, and 0 is NULL.
pub mod Bytes
pub mod Spec
pub mod Alloc
pub mod Pages
pub mod Startup
use icosaos.Prelude.{
  ℕ, zero, suc, ◌+◌, ◌*◌, ◌/◌, ◌%◌, Bool, Option, none, some, bit_and, bit_or, u8, u32, not32,
  ◌<<<◌, update, ◌==◌, leb, not, if◌then◌else◌,
}

abbrev pub page_size : ℕ
page_size = 4096

abbrev pub null : ℕ
null = 0

-- The globals of memory.c.
pub record Allocator : Type 0 where
  pub bitmap : ℕ → ℕ
  pub total_pages : ℕ
  pub bitmap_size_bytes : ℕ

-- `(byte & (1 << bit)) == 0`
unfoldable pub is_clear : ℕ → ℕ → Bool
is_clear byte bit = bit_and byte (1 <<< bit) == 0

-- `byte |= 1 << bit`
unfoldable pub set_bit : ℕ → ℕ → ℕ
set_bit byte bit = u8 (bit_or byte (1 <<< bit))

-- `byte &= ~(1 << bit)`
unfoldable pub clear_bit : ℕ → ℕ → ℕ
clear_bit byte bit = u8 (bit_and byte (not32 (1 <<< bit)))

-- What `alloc_page` does at the first clear bit: the check, the mark and the address.
unfoldable pub claim : ℕ → ℕ → Allocator → ℕ × Allocator
claim byte_idx bit_idx a =
    let page_index = u32 (byte_idx * 8 + bit_idx) in
    if leb a.total_pages page_index then (null, a) else (
      u32 (page_index * page_size),
      record a { bitmap = update a.bitmap byte_idx (set_bit (a.bitmap byte_idx) bit_idx) },
    )

-- The loop over the bits of a byte, with `n` rounds left; `none` when it runs to its end.
unfoldable pub scan_bits : ℕ → ℕ → ℕ → Allocator → Option (ℕ × Allocator)
scan_bits zero byte_idx bit_idx a = none
scan_bits (suc n) byte_idx bit_idx a =
    let rest = scan_bits n byte_idx (bit_idx + 1) a in
    if is_clear (a.bitmap byte_idx) bit_idx then some (claim byte_idx bit_idx a) else rest

-- The loop over the bytes of the bitmap.
unfoldable pub scan_bytes : ℕ → ℕ → Allocator → ℕ × Allocator
scan_bytes zero byte_idx a = (null, a)
scan_bytes (suc n) byte_idx a =
    let rest = scan_bytes n (byte_idx + 1) a in
    if a.bitmap byte_idx == 0xFF
    then rest
    else elim (scan_bits 8 byte_idx 0 a) [ none ↦ rest | some r ↦ r ]

unfoldable pub alloc_page : Allocator → ℕ × Allocator
alloc_page a = scan_bytes a.bitmap_size_bytes 0 a

unfoldable pub free_page : ℕ → Allocator → Allocator
free_page physical_address a =
    if not (physical_address % page_size == 0)
    then a
    else let page_index = physical_address / page_size in
      if leb a.total_pages page_index then a else record a {
        bitmap =
            update a.bitmap (page_index / 8)
              (clear_bit (a.bitmap (page_index / 8)) (page_index % 8));
      }
