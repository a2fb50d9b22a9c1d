-- ===== src/KernelHeap.antt =====
-- src/kernel/heap.c: the heap of the kernel, whose pages come one by one from the frame allocator.
pub mod Oversized
use icosaos.Prelude.{
  ℕ, zero, suc, ◌+◌, ◌-◌, ◌*◌, ◌/◌, ◌%◌, ◌^◌, ◌≤◌, ◌<◌, ◌≡◌, ◌≢◌, refl, sym, ap, ◌∙◌, ◌⊎◌, inl, inr,
  Bool, true, false, not, Option, none, some, List, [], ◌∷◌, ◌&&◌, ◌||◌, bit_and, bit_or, ◌==◌, ltb,
  leb, if◌then◌else◌, ◌>>>◌, arith, Bool-cases, Option-cases, update, u32, add32, sub32, mul32, Run,
  ok, out_of_fuel, ◌>>=◌,
}
use icosaos.Memory.{alloc_page}
use icosaos.Paging.{Machine, map_page, page_present, page_write}
use icosaos.Heap.{PageSource, Heap, page_size, null, malloc, free}

abbrev pub heap_start_addr : ℕ
heap_start_addr = 0xD0000000

-- The loop of `expand_heap`: the end of the heap moves with each page, also when a later one fails,
-- and the answer of `map_page` is not looked at.
unfoldable pub grow_pages : ℕ → ℕ → Machine → Bool × ℕ × Machine
grow_pages end zero m = (true, end, m)
grow_pages end (suc n) m =
    let (phys_frame, frames) = alloc_page m.frames in
    let taken = record m { frames = frames } in
    let m' = (map_page end phys_frame (bit_or page_present page_write) taken).1 in
    let rest = grow_pages (add32 end page_size) n m' in
    if phys_frame == null then (false, end, taken) else rest

pub grow_pages-end :
    (end n : ℕ) (m : Machine)
    → end + n * page_size < 2 ^ 32
    → (end ≤ (grow_pages end n m).1)
      × ((grow_pages end n m).1 ≤ end + n * page_size)
      × ((grow_pages end n m).0 ≡ true → (grow_pages end n m).1 ≡ end + n * page_size)
unfolding grow_pages
grow_pages-end end zero m h = (omega arith, omega arith, λ e. omega arith)
grow_pages-end end (suc n) m h = elim (Bool-cases ((alloc_page m.frames).0 == null)) [
  | inl full ↦ rw full (omega arith, omega arith, λ e. absurd (cc))
  | inr got ↦
      let next : add32 end page_size ≡ end + page_size = omega arith in
      let ih =
        grow_pages-end (end + page_size) n
          (map_page end (alloc_page m.frames).0 3 (record m { frames = (alloc_page m.frames).1 })).1
          (omega arith) in
      rw (got, next) (omega (arith, ih), omega (arith, ih), λ e. omega (arith, ih.2 e))
]

abbrev pub kernel_pages : PageSource
kernel_pages = record { Sys = Machine; grow = grow_pages; grow_end = grow_pages-end }

unfoldable pub kmalloc : ℕ → ℕ → ℕ → Heap kernel_pages → Run (ℕ × Heap kernel_pages)
kmalloc fuel calls size s = malloc kernel_pages fuel calls size s

unfoldable pub kfree : ℕ → ℕ → Heap kernel_pages → Run (Heap kernel_pages)
kfree fuel ptr s = free kernel_pages fuel ptr s
