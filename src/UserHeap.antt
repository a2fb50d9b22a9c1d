-- ===== src/UserHeap.antt =====
-- src/kernel/user_heap.c: the heap of user programs, whose pages come from `allocate_user_space`.
use icosaos.Prelude.{
  ℕ, ◌+◌, ◌*◌, ◌^◌, ◌≤◌, ◌<◌, ◌≡◌, inl, inr, Bool, true, false, if◌then◌else◌, arith, Bool-cases,
  add32, mul32, Run,
}
use icosaos.Paging.{Machine}
use icosaos.UserMemory.{allocate_user_space}
use icosaos.Heap.{PageSource, Heap, page_size, malloc, free}

abbrev pub user_heap_start : ℕ
user_heap_start = 0x50000000

-- The pages of `expand_user_heap`: the end of the heap moves when all of them are mapped.
unfoldable pub grow_user_pages : ℕ → ℕ → Machine → Bool × ℕ × Machine
grow_user_pages end pages m =
    let (done, m') = allocate_user_space end pages m in
    if done then (true, add32 end (mul32 pages page_size), m') else (false, end, m')

pub grow_user_pages-end :
    (end n : ℕ) (m : Machine)
    → end + n * page_size < 2 ^ 32
    → (end ≤ (grow_user_pages end n m).1)
      × ((grow_user_pages end n m).1 ≤ end + n * page_size)
      × ((grow_user_pages end n m).0 ≡ true → (grow_user_pages end n m).1 ≡ end + n * page_size)
unfolding grow_user_pages
grow_user_pages-end end n m h = elim (Bool-cases (allocate_user_space end n m).0) [
  | inl done ↦ rw done (omega arith, omega arith, λ e. omega arith)
  | inr failed ↦ rw failed (omega arith, omega arith, λ e. absurd (cc))
]

abbrev pub user_pages : PageSource
user_pages = record { Sys = Machine; grow = grow_user_pages; grow_end = grow_user_pages-end }

unfoldable pub umalloc : ℕ → ℕ → ℕ → Heap user_pages → Run (ℕ × Heap user_pages)
umalloc fuel calls size s = malloc user_pages fuel calls size s

unfoldable pub ufree : ℕ → ℕ → Heap user_pages → Run (Heap user_pages)
ufree fuel ptr s = free user_pages fuel ptr s
