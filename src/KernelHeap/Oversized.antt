-- ===== src/KernelHeap/Oversized.antt =====
-- Requests that wrap around when they are rounded up to pages.
use icosaos.Prelude.{
  ℕ, suc, ◌-◌, ◌/◌, ◌^◌, ◌≤◌, ◌≡◌, ◌≢◌, refl, true, ◌==◌, arith, update, add32, sub32, Run, ok,
}
use icosaos.Heap.{
  Heap, null, header_size, page_size, pages_for, expand, append_block, place, search, found,
  take_block, malloc,
}
use icosaos.Heap.Malloc.{malloc-empty}
use icosaos.KernelHeap.{kernel_pages, grow_pages, kmalloc}

-- The heap with the block that such a request adds at the end `end`.
abbrev wrapped : Heap kernel_pages → Heap kernel_pages
wrapped s = record {
  headers =
      update s.headers s.current_end (record { size = 2 ^ 32 - 12; is_free = true; next = null });
  start = s.current_end;
  current_end = s.current_end;
  sys = s.sys;
}

expand-oversized :
    (fuel size : ℕ) (s : Heap kernel_pages)
    → s.start ≡ null
    → 2 ^ 32 - 4107 ≤ size
    → size ≤ 2 ^ 32 - 12
    → expand kernel_pages fuel size s ≡ ok (true, wrapped s)
unfolding expand append_block grow_pages pages_for
expand-oversized fuel size s empty lo hi =
    let no_pages : sub32 (add32 (add32 size header_size) page_size) 1 / page_size ≡ 0 =
      omega arith in
    let start : (s.start == null) ≡ true = ground arith in rw no_pages (rw start refl)

search-wrapped :
    (fuel size : ℕ) (s : Heap kernel_pages)
    → s.current_end ≢ null
    → size ≤ 2 ^ 32 - 12
    → search (suc fuel) size s.current_end (wrapped s).headers
      ≡ found
          (add32 s.current_end header_size)
          (take_block size s.current_end (wrapped s).headers).1
unfolding search take_block
search-wrapped fuel size s ne hi = ground arith

place-wrapped :
    (fuel size : ℕ) (again : Heap kernel_pages → Run (ℕ × Heap kernel_pages))
    (s : Heap kernel_pages)
    → s.current_end ≢ null
    → size ≤ 2 ^ 32 - 12
    → place kernel_pages (suc fuel) again size (wrapped s)
      ≡ ok (
        add32 s.current_end header_size,
        record (wrapped s) { headers = (take_block size s.current_end (wrapped s).headers).1 },
      )
unfolding place
place-wrapped fuel size again s ne hi = rw (search-wrapped fuel size s ne hi, place) refl

-- On an empty heap whose end is not NULL, `kmalloc` of a size from 2 ^ 32 - 4107 up to 2 ^ 32 - 12
-- returns the address behind a header at the end of the heap without taking a single page: the end
-- of the heap and the memory below are as before.
pub kmalloc-oversized :
    (fuel calls size : ℕ) (s : Heap kernel_pages)
    → s.start ≡ null
    → s.current_end ≢ null
    → 2 ^ 32 - 4107 ≤ size
    → size ≤ 2 ^ 32 - 12
    → (s' : Heap kernel_pages) × (kmalloc (suc fuel) (suc calls) size s
        ≡ ok (add32 s.current_end header_size, s'))
      × (s'.sys ≡ s.sys)
      × (s'.current_end ≡ s.current_end)
unfolding kmalloc
kmalloc-oversized fuel calls size s empty ne lo hi =
    let start : (s.start == null) ≡ true = ground arith in
    rw (malloc-empty {source = kernel_pages} (suc fuel) calls size s (omega arith) start) (
      rw (expand-oversized (suc fuel) size s empty lo hi) (
        _,
        place-wrapped fuel size (malloc kernel_pages (suc fuel) calls size) s ne hi,
        refl,
        refl,
      ))
