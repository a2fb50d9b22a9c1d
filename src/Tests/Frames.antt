-- ===== src/Tests/Frames.antt =====
-- The frame allocator with 16 pages, of which the first four are used.
use icosaos.Prelude.{ℕ, ◌<◌, ◌≡◌, ◌≢◌, ◌⊎◌, refl, arith, ◌==◌, if◌then◌else◌, false, true}
use icosaos.Memory.{
  Allocator, null, alloc_page, free_page, claim, scan_bits, scan_bytes, is_clear, set_bit,
}
use icosaos.Memory.Spec.{used, IsValid}
use icosaos.Memory.Pages.{Takes, alloc_page-lowest, free_page-alloc_page}

abbrev frames : Allocator
frames = record {
  bitmap = λ i. if i == 0 then 0x0F else 0;
  total_pages = 16;
  bitmap_size_bytes = 2;
}

frames-IsValid : IsValid frames
unfolding is_clear
frames-IsValid = record {
  bytes = λ i. ground arith;
  sized = refl;
  addressable = omega arith;
  page_zero = refl;
}

alloc_page_run : (alloc_page frames).0 ≡ 0x4000
unfolding alloc_page scan_bytes scan_bits claim is_clear set_bit
alloc_page_run = refl

alloc_page-lowest_example :
    (alloc_page frames ≡ (null, frames)) × ((q : ℕ) → q < 16 → used frames q ≡ true)
    ⊎ ((p : ℕ) × (p < 16)
        × (used frames p ≡ false)
        × Takes frames p (alloc_page frames)
        × ((q : ℕ) → q < p → used frames q ≡ true)
        × IsValid (alloc_page frames).1)
alloc_page-lowest_example = alloc_page-lowest frames frames-IsValid

frame_free : (alloc_page frames).0 ≢ null
unfolding alloc_page scan_bytes scan_bits claim is_clear set_bit
frame_free = λ e. absurd (omega arith)

free_page-alloc_page_example : free_page (alloc_page frames).0 (alloc_page frames).1 ≡ frames
free_page-alloc_page_example = free_page-alloc_page frames frames-IsValid frame_free
