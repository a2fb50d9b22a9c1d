-- ===== src/Memory/Startup.antt =====
-- src/kernel/memory.c: `init_bitmap_allocator`. The information of the boot loader is a memory of
-- bytes, apart from the bitmap. The walks along its tags and along the pages of a chunk take fuel. A
-- table whose entries have the size zero, where the division traps, has no entries here.
pub mod Protect
pub mod Walk
pub mod Frees
use icosaos.Prelude.{
  ℕ, zero, suc, ◌+◌, ◌-◌, ◌*◌, ◌/◌, ◌%◌, ◌^◌, bit_and, bit_or, u8, u32, not32, add32, sub32, update,
  ◌==◌, ltb, load32, if◌then◌else◌, Run, ok, out_of_fuel, ◌>>=◌,
}
use icosaos.Memory.{Allocator, page_size, set_bit, clear_bit}

-- A `uint64_t` in memory.
unfoldable pub load64 : ℕ → (ℕ → ℕ) → ℕ
load64 at bytes = load32 at bytes + 2 ^ 32 * load32 (add32 at 4) bytes

abbrev pub add64 : ℕ → ℕ → ℕ
add64 x y = (x + y) % 2 ^ 64

-- The fields of `struct multiboot_mmap_entry`.
unfoldable pub entry_addr : ℕ → (ℕ → ℕ) → ℕ
entry_addr entry bytes = load64 entry bytes

unfoldable pub entry_len : ℕ → (ℕ → ℕ) → ℕ
entry_len entry bytes = load64 (add32 entry 8) bytes

unfoldable pub entry_type : ℕ → (ℕ → ℕ) → ℕ
entry_type entry bytes = load32 (add32 entry 16) bytes

-- The loop over the entries of a map of the memory, and the loop over the tags, with what the body does
-- at an entry.
unfoldable pub each_entry : {S : Type 0} → (ℕ → S → Run S) → ℕ → ℕ → ℕ → S → Run S
each_entry body zero entry entry_size s = ok s
each_entry body (suc n) entry entry_size s =
    body entry s >>= λ s'. each_entry body n (add32 entry entry_size) entry_size s'

unfoldable pub each_tag : {S : Type 0} → (ℕ → S → Run S) → ℕ → ℕ → (ℕ → ℕ) → S → Run S
each_tag body zero tag bytes s = out_of_fuel
each_tag body (suc fuel) tag bytes s =
    let size = load32 (add32 tag 4) bytes in
    let entry_size = load32 (add32 tag 8) bytes in
    let num_entries = sub32 size 16 / entry_size in
    let here =
      if load32 tag bytes == 6
      then each_entry body num_entries (add32 tag 16) entry_size s
      else ok s in
    let rest =
      here >>= λ s'. each_tag body fuel (add32 tag (bit_and (add32 size 7) (not32 7))) bytes s' in
    if load32 tag bytes == 0 then ok s else rest

-- The first body: the end of the highest chunk that is available.
unfoldable pub raise_max : (ℕ → ℕ) → ℕ → ℕ → Run ℕ
raise_max bytes entry max_address =
    let end_addr = add64 (entry_addr entry bytes) (entry_len entry bytes) in
    ok (
      if entry_type entry bytes == 1
      then if ltb max_address end_addr then end_addr else max_address
      else max_address)

-- `bitmap[page / 8] &= ~(1 << (page % 8))` and `bitmap[page / 8] |= 1 << (page % 8)`.
unfoldable pub mark_free : ℕ → (ℕ → ℕ) → ℕ → ℕ
mark_free page bitmap = update bitmap (page / 8) (clear_bit (bitmap (page / 8)) (page % 8))

unfoldable pub mark_used : ℕ → (ℕ → ℕ) → ℕ → ℕ
mark_used page bitmap = update bitmap (page / 8) (set_bit (bitmap (page / 8)) (page % 8))

-- The second body: the pages of an available chunk.
unfoldable pub free_chunk : ℕ → ℕ → ℕ → (ℕ → ℕ) → Run (ℕ → ℕ)
free_chunk zero addr end bitmap = out_of_fuel
free_chunk (suc fuel) addr end bitmap =
    let rest =
      free_chunk fuel (add64 addr page_size) end (mark_free (u32 (addr / page_size)) bitmap) in
    if ltb addr end then rest else ok bitmap

unfoldable pub free_entry : ℕ → (ℕ → ℕ) → ℕ → (ℕ → ℕ) → Run (ℕ → ℕ)
free_entry fuel bytes entry bitmap =
    let chunk =
      free_chunk fuel (entry_addr entry bytes)
        (add64 (entry_addr entry bytes) (entry_len entry bytes)) bitmap in
    if entry_type entry bytes == 1 then chunk else ok bitmap

-- The loops of the second and the last phase, with `n` rounds left.
unfoldable pub reserve_all : ℕ → ℕ → (ℕ → ℕ) → ℕ → ℕ
reserve_all zero i bitmap = bitmap
reserve_all (suc n) i bitmap = reserve_all n (i + 1) (update bitmap i 0xFF)

unfoldable pub protect : ℕ → ℕ → (ℕ → ℕ) → ℕ → ℕ
protect zero page bitmap = bitmap
protect (suc n) page bitmap = protect n (page + 1) (mark_used page bitmap)

abbrev pub kernel_start_page : ℕ
kernel_start_page = 0x100000 / page_size

-- The first page behind the bitmap, which stands at `kernel_end`.
unfoldable pub protect_end_page : ℕ → ℕ → ℕ
protect_end_page kernel_end bitmap_size_bytes =
    sub32 (add32 (add32 kernel_end bitmap_size_bytes) page_size) 1 / page_size

-- The last phase: the kernel, the bitmap and page 0.
unfoldable pub protect_kernel : ℕ → ℕ → (ℕ → ℕ) → ℕ → ℕ
protect_kernel kernel_end bitmap_size_bytes bitmap =
    let kept =
      protect (protect_end_page kernel_end bitmap_size_bytes - kernel_start_page) kernel_start_page
        bitmap in
    update kept 0 (u8 (bit_or (kept 0) 1))

-- `kernel_end` is `&end`, and `bitmap` the memory there.
unfoldable pub init_bitmap_allocator : ℕ → ℕ → ℕ → (ℕ → ℕ) → (ℕ → ℕ) → Run Allocator
init_bitmap_allocator fuel mbi_addr kernel_end bytes bitmap =
    each_tag (raise_max bytes) fuel (add32 mbi_addr 8) bytes 0 >>= λ max_address.
    let total_pages = u32 (max_address / page_size) in
    let bitmap_size_bytes = total_pages / 8 in
    each_tag (free_entry fuel bytes) fuel (add32 mbi_addr 8) bytes
      (reserve_all bitmap_size_bytes 0 bitmap)
    >>= λ freed. ok (record {
      bitmap = protect_kernel kernel_end bitmap_size_bytes freed;
      total_pages = total_pages;
      bitmap_size_bytes = bitmap_size_bytes;
    })
