-- ===== src/Heap/Malloc.antt =====
-- `kmalloc` and `umalloc` against the map of the regions handed out.
use icosaos.Prelude.{
  ℕ, suc, ◌+◌, ◌≤◌, ◌<◌, ◌≡◌, refl, ap, ◌⊎◌, true, false, none, some, List, [], ◌∷◌, arith,
  if◌then◌else◌, ◌==◌, Run, ok, out_of_fuel, ◌>>=◌,
}
use icosaos.Heap.{
  null, PageSource, Heap, pages_for, expand, place, malloc, search, Search, found, missing,
  search_out_of_fuel,
}
use icosaos.Heap.Blocks.{Block, fit, fit-Placed, region}
use icosaos.Heap.Regions.{region-fit}
use icosaos.Heap.Chain.{length, Refines}
use icosaos.Heap.Take.{search-Refines}
use icosaos.Heap.Expand.{IsHeap}

module _ {source : PageSource} where
  open source use {grow}

  -- A region of `size` bytes, or up to 15 more, was handed out at `p`, where none was before; the
  -- other regions are as they were.
  pub record Allocates (lo size : ℕ) (bs : List Block) (p : ℕ) (s : Heap source) : Type 0 where
    pub blocks : List Block
    pub is_heap : IsHeap lo s blocks
    pub granted : ℕ
    pub enough : size ≤ granted
    pub tight : granted < size + 16
    pub new : region bs p ≡ none
    pub regions : (q : ℕ) → region blocks q ≡ (if p == q then some granted else region bs q)

  -- How an allocation ends: with a region, or with NULL and the blocks as they were, where no free
  -- block is large enough and no pages are to be had.
  abbrev pub Allocated : ℕ → ℕ → Heap source → List Block → Run (ℕ × Heap source) → Type 0
  Allocated lo size s bs out_of_fuel = ⊥
  Allocated lo size s bs (ok (p, s')) =
      Allocates lo size bs p s'
      ⊎ (p ≡ null)
        × IsHeap lo s' bs
        × (fit size bs ≡ none)
        × ((grow s.current_end (pages_for size) s.sys).0 ≡ false)

  -- The search of a heap with a fitting block.
  pub place-fit :
      (fuel lo size : ℕ) (again : Heap source → Run (ℕ × Heap source)) (s : Heap source)
      (bs : List Block) {r : ℕ × List Block}
      → length bs < fuel
      → IsHeap lo s bs
      → fit size bs ≡ some r
      → (s' : Heap source) × (place source fuel again size s ≡ ok (r.0, s')) × IsHeap lo s' r.1
  unfolding place
  place-fit fuel lo size again s bs {r} enough v e = hit (search fuel size s.start s.headers) refl (
      rw e at (
        search-Refines fuel s.headers size s.start bs lo s.current_end enough v.fits v.placed
          v.chain))
    where
      hit :
          (o : Search)
          → search fuel size s.start s.headers ≡ o
          → Refines s.headers lo s.start (some r) o
          → (s' : Heap source) × (place source fuel again size s ≡ ok (r.0, s')) × IsHeap lo s' r.1
      hit (found p h) f (at, chain, same) = (
        record s { headers = h },
        rw (f, place) (ap (λ q. ok (q, record s { headers = h })) at),
        record {
          chain = chain;
          placed = fit-Placed size bs lo s.current_end e v.placed;
          fits = v.fits;
        },
      )
      hit missing f h = absurd h
      hit search_out_of_fuel f h = absurd h

  pub place-none :
      (fuel lo size : ℕ) (again : Heap source → Run (ℕ × Heap source)) (s : Heap source)
      (bs : List Block)
      → length bs < fuel
      → IsHeap lo s bs
      → fit size bs ≡ none
      → place source fuel again size s
        ≡ (do (grown, s') ← expand source fuel size s; if grown then again s' else ok (null, s'))
  unfolding place
  place-none fuel lo size again s bs enough v e = miss (search fuel size s.start s.headers) refl (
      rw e at (
        search-Refines fuel s.headers size s.start bs lo s.current_end enough v.fits v.placed
          v.chain))
    where
      miss :
          (o : Search)
          → search fuel size s.start s.headers ≡ o
          → Refines s.headers lo s.start none o
          → place source fuel again size s ≡ (do
            (grown, s') ← expand source fuel size s
            if grown then again s' else ok (null, s'))
      miss (found p h) f r = absurd r
      miss missing f r = rw (f, place)
      miss search_out_of_fuel f r = absurd r

  pub start-null :
      (lo : ℕ) (s : Heap source) (b : Block) (bs : List Block)
      → IsHeap lo s (b ∷ bs)
      → (s.start == null) ≡ false
  start-null lo s b bs v = let low = v.fits.0 in let c = v.chain in let p = v.placed in ground arith

  -- One call, by whether the heap has a first block.
  pub malloc-empty :
      (fuel calls size : ℕ) (s : Heap source)
      → 0 < size
      → (s.start == null) ≡ true
      → malloc source fuel (suc calls) size s ≡ (do
        (grown, s') ← expand source fuel size s
        if grown then place source fuel (malloc source fuel calls size) size s' else ok (null, s'))
  unfolding malloc
  malloc-empty fuel calls size s pos e =
      let zero_test : (size == 0) ≡ false = ground arith in rw (zero_test, e)

  pub malloc-some :
      (fuel calls size : ℕ) (s : Heap source)
      → 0 < size
      → (s.start == null) ≡ false
      → malloc source fuel (suc calls) size s
        ≡ place source fuel (malloc source fuel calls size) size s
  unfolding malloc
  malloc-some fuel calls size s pos e =
      let zero_test : (size == 0) ≡ false = ground arith in rw (zero_test, e)

  pub malloc-fit :
      (fuel calls lo size : ℕ) (s : Heap source) (bs : List Block) {r : ℕ × List Block}
      → 0 < size
      → length bs < fuel
      → IsHeap lo s bs
      → fit size bs ≡ some r
      → (s' : Heap source) × (malloc source fuel (suc calls) size s ≡ ok (r.0, s'))
        × IsHeap lo s' r.1
  unfolding fit
  malloc-fit fuel calls lo size s [] pos enough v e = absurd (cc)
  malloc-fit fuel calls lo size s (b ∷ bs) pos enough v e =
      rw (malloc-some fuel calls size s pos (start-null lo s b bs v))
        (place-fit fuel lo size (malloc source fuel calls size) s (b ∷ bs) enough v e)

  pub Allocates_of_fit :
      (lo size : ℕ) (bs : List Block) (s s' : Heap source) {r : ℕ × List Block}
      → IsHeap lo s bs
      → fit size bs ≡ some r
      → IsHeap lo s' r.1
      → Allocates lo size bs r.0 s'
  Allocates_of_fit lo size bs s s' {r} v e w =
      let (n, ge, lt, new, regions) = region-fit size bs lo s.current_end e v.placed in
      record {
        blocks = r.1;
        is_heap = w;
        granted = n;
        enough = ge;
        tight = lt;
        new = new;
        regions = regions;
      }
