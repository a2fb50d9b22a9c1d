-- ===== src/Tests/Blocks.antt =====
-- The kernel heap on a machine without page tables: empty, and with blocks from 0xD0000000 on.
use icosaos.Prelude.{ℕ, ◌≡◌, refl, arith, ◌==◌, if◌then◌else◌, false, true, some, List, [], ◌∷◌, ok}
use icosaos.Heap.{Header, Headers, Heap, null, pages_for, search, malloc, free, coalesce}
use icosaos.Heap.Blocks.{Block, Placed, region, fit, merge}
use icosaos.Heap.Apart.{Beside, malloc-Beside}
use icosaos.Heap.Chain.{Chain, Refines}
use icosaos.Heap.Take.{search-Refines}
use icosaos.Heap.Coalesce.{Holds, coalesce-merge}
use icosaos.Heap.Expand.{IsHeap, Fitting}
use icosaos.Heap.Malloc.{Allocates, Allocated}
use icosaos.Heap.Total.{malloc-Allocated}
use icosaos.Heap.Free.{Freed, free-Freed, free-malloc}
use icosaos.KernelHeap.{kernel_pages, heap_start_addr}
use icosaos.Tests.Pages.{machine}

abbrev free_header : Header
free_header = record { size = 0; is_free = true; next = null }

abbrev empty_heap : Heap kernel_pages
empty_heap = record {
  headers = λ a. free_header;
  start = null;
  current_end = heap_start_addr;
  sys = machine;
}

-- A block of 100 bytes in use, one of 40 that is free, and one of 20 in use.
abbrev three_blocks : List Block
three_blocks =
    record { addr = 0xD0000000; size = 100; free = false }
    ∷ record { addr = 0xD0000070; size = 40; free = true }
    ∷ record { addr = 0xD00000A4; size = 20; free = false }
    ∷ []

abbrev three_headers : Headers
three_headers a =
    if a == 0xD0000000
    then record { size = 100; is_free = false; next = 0xD0000070 }
    else if a == 0xD0000070
    then record { size = 40; is_free = true; next = 0xD00000A4 }
    else record { size = 20; is_free = false; next = null }

three_headers-Chain : Chain three_headers 0xD0000000 three_blocks
three_headers-Chain = (refl, refl, refl, (refl, refl, refl, (refl, refl, refl, refl)))

three_blocks-Placed : Placed 0xD0000000 three_blocks 0xD0001000
three_blocks-Placed = (omega arith, (omega arith, (omega arith, omega arith)))

abbrev three_heap : Heap kernel_pages
three_heap = record {
  headers = three_headers;
  start = 0xD0000000;
  current_end = 0xD0001000;
  sys = machine;
}

three_heap-IsHeap : IsHeap {source = kernel_pages} 0xD0000000 three_heap three_blocks
three_heap-IsHeap = record {
  chain = three_headers-Chain;
  placed = three_blocks-Placed;
  fits = (omega arith, omega arith);
}

first_region : region three_blocks 0xD000000C ≡ some 100
unfolding region
first_region = refl

last_region : region three_blocks 0xD00000B0 ≡ some 20
unfolding region
last_region = refl

search-Refines_example :
    Refines three_headers 0xD0000000 0xD0000000
      (fit 8 three_blocks)
      (search 4 8 0xD0000000 three_headers)
search-Refines_example =
    search-Refines 4 three_headers 8 0xD0000000 three_blocks 0xD0000000 0xD0001000 (omega arith)
      (omega arith, omega arith) three_blocks-Placed three_headers-Chain

coalesce-merge_example :
    Holds three_headers 0xD0000000 0xD0000000
      (merge three_blocks)
      (coalesce 4 0xD0000000 three_headers)
coalesce-merge_example =
    coalesce-merge 4 three_headers 0xD0000000 three_blocks 0xD0000000 0xD0001000 (omega arith)
      (omega arith, omega arith) three_blocks-Placed three_headers-Chain

page_fits : Fitting 1000 0xD0001000
unfolding pages_for
page_fits = record { positive = omega arith; no_wrap = omega arith; room = omega arith }

malloc-Allocated_example :
    Allocated {source = kernel_pages} 0xD0000000 1000 three_heap three_blocks
      (malloc kernel_pages 5 2 1000 three_heap)
malloc-Allocated_example =
    malloc-Allocated {source = kernel_pages} 5 0 0xD0000000 1000 three_heap three_blocks
      (omega arith) three_heap-IsHeap page_fits

malloc-Beside_example :
    Beside {source = kernel_pages} 1000 0xD00000B0 20 (malloc kernel_pages 5 2 1000 three_heap)
malloc-Beside_example =
    malloc-Beside {source = kernel_pages} 5 0 0xD0000000 1000 0xD00000B0 20 three_heap three_blocks
      (omega arith) three_heap-IsHeap page_fits last_region

free-Freed_example :
    Freed {source = kernel_pages} 0xD0000000 three_blocks 0xD000000C
      (free kernel_pages 4 0xD000000C three_heap)
free-Freed_example =
    free-Freed {source = kernel_pages} 4 0xD0000000 0xD000000C 100 three_heap three_blocks
      (omega arith) three_heap-IsHeap first_region

-- The blocks before the first one was handed out.
abbrev before : List Block
before =
    record { addr = 0xD0000000; size = 100; free = true }
    ∷ record { addr = 0xD0000070; size = 40; free = true }
    ∷ record { addr = 0xD00000A4; size = 20; free = false }
    ∷ []

first_allocated : Allocates {source = kernel_pages} 0xD0000000 100 before 0xD000000C three_heap
unfolding region
first_allocated = record {
  blocks = three_blocks;
  is_heap = three_heap-IsHeap;
  granted = 100;
  enough = omega arith;
  tight = omega arith;
  new = refl;
  regions = λ q. ground arith;
}

free-malloc_example :
    (s' : Heap kernel_pages) × (bs' : List Block) × (free kernel_pages 4 0xD000000C three_heap
      ≡ ok s')
    × IsHeap {source = kernel_pages} 0xD0000000 s' bs'
    × ((q : ℕ) → region bs' q ≡ region before q)
unfolding first_allocated
free-malloc_example =
    free-malloc {source = kernel_pages} 4 0xD0000000 100 0xD000000C three_heap before
      first_allocated (omega arith)
