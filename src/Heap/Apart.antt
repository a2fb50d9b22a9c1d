-- ===== src/Heap/Apart.antt =====
-- `kmalloc` and `umalloc` hand out regions that lie apart.
use icosaos.Prelude.{
  ℕ, suc, ◌+◌, ◌≤◌, ◌<◌, ◌≡◌, ◌⊎◌, inl, inr, some, List, arith, Run, ok, out_of_fuel,
}
use icosaos.Heap.{null, header_size, PageSource, Heap, malloc}
use icosaos.Heap.Blocks.{Block, region}
use icosaos.Heap.Regions.{region_apart}
use icosaos.Heap.Chain.{length}
use icosaos.Heap.Expand.{IsHeap, Fitting}
use icosaos.Heap.Malloc.{Allocated}
use icosaos.Heap.Total.{malloc-Allocated}

module _ {source : PageSource} where
  -- How an allocation of `size` bytes ends for the region of `m` bytes at `q`: with NULL, or with a
  -- region of that size behind or before it, with room for a header between the two.
  abbrev pub Beside : ℕ → ℕ → ℕ → Run (ℕ × Heap source) → Type 0
  Beside size q m out_of_fuel = ⊥
  Beside size q m (ok (p, s')) =
      (p ≡ null) ⊎ ((n : ℕ) × (size ≤ n) × ((p + n + header_size ≤ q) ⊎ (q + m + header_size ≤ p)))

  Allocated-Beside :
      (lo size q m : ℕ) (s : Heap source) (bs : List Block) (r : Run (ℕ × Heap source))
      → region bs q ≡ some m
      → Allocated lo size s bs r
      → Beside size q m r
  Allocated-Beside lo size q m s bs out_of_fuel there x = x
  Allocated-Beside lo size q m s bs (ok (p, s')) there (inr (nothing, heap, unfit, refused)) =
      inl nothing
  Allocated-Beside lo size q m s bs (ok (p, s')) there (inl a) =
      let new = a.new in
      inr (
        a.granted,
        a.enough,
        region_apart a.blocks lo s'.current_end p q a.granted m (a.is_heap).placed
            (ground (arith, a.regions p)) (ground (arith, a.regions q))
            (λ same. absurd (cc (same, new, there))),
      )

  -- With fuel for the blocks and one more, and one call of itself, an allocation in a well-formed heap,
  -- of a size that is not zero and can be rounded up to pages, ends with NULL, or with a region of that
  -- size that overlaps none handed out before: it lies behind or before it, with a header between them.
  pub malloc-Beside :
      (fuel calls lo size q m : ℕ) (s : Heap source) (bs : List Block)
      → length bs + 1 < fuel
      → IsHeap lo s bs
      → Fitting size s.current_end
      → region bs q ≡ some m
      → Beside size q m (malloc source fuel (suc (suc calls)) size s)
  malloc-Beside fuel calls lo size q m s bs enough v want there =
      Allocated-Beside lo size q m s bs _ there
        (malloc-Allocated fuel calls lo size s bs enough v want)
