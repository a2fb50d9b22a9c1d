-- ===== src/Heap/Total.antt =====
-- `kmalloc` and `umalloc` end, with a region or with NULL.
use icosaos.Prelude.{
  ℕ, suc, ◌+◌, ◌<◌, ◌≡◌, refl, inl, inr, Bool, true, false, none, some, List, [], ◌∷◌, ◌++◌, arith,
  if◌then◌else◌, Option-cases, ◌==◌, Run, ok, out_of_fuel, ◌>>=◌,
}
use icosaos.Heap.{null, PageSource, Heap, expand, place, malloc}
use icosaos.Heap.Blocks.{Block, fit}
use icosaos.Heap.Chain.{length}
use icosaos.Heap.Expand.{
  IsHeap, Fitting, added, pages_for-le, region-append_free, fit-append, Expanded, expand-Expanded,
}
use icosaos.Heap.Malloc.{
  Allocates, Allocated, place-fit, place-none, start-null, malloc-empty, malloc-some, malloc-fit,
  Allocates_of_fit,
}

pub length-append {ℓ} : {A : Type ℓ} (xs ys : List A) → length (xs ++ ys) ≡ length xs + length ys
length-append [] ys = omega arith
length-append (x ∷ xs) ys = omega (arith, length-append xs ys)

module _ {source : PageSource} where
  -- A second attempt that finds the new block serves the request.
  abbrev Serves : ℕ → ℕ → Heap source → List Block → (Heap source → Run (ℕ × Heap source)) → Type 0
  Serves lo size s bs again =
      (s' : Heap source) (r : ℕ × List Block)
      → IsHeap lo s' (bs ++ added size s.current_end ∷ [])
      → fit size (bs ++ added size s.current_end ∷ []) ≡ some r
      → (s'' : Heap source) × (again s' ≡ ok (r.0, s'')) × IsHeap lo s'' r.1

  -- What was allocated behind the new block was allocated from the old blocks' point of view.
  Allocates-old :
      (lo size p : ℕ) (s s' : Heap source) (bs : List Block)
      → Allocates lo size (bs ++ added size s.current_end ∷ []) p s'
      → Allocates lo size bs p s'
  Allocates-old lo size p s s' bs a = record {
    blocks = a.blocks;
    is_heap = a.is_heap;
    granted = a.granted;
    enough = a.enough;
    tight = a.tight;
    new = rw (region-append_free bs (added size s.current_end) p refl) at (a.new);
    regions = λ q. rw (region-append_free bs (added size s.current_end) q refl) at (a.regions q);
  }

  grow_then :
      (lo size : ℕ) (s : Heap source) (bs : List Block)
      (again : Heap source → Run (ℕ × Heap source)) (r : Run (Bool × Heap source))
      → Fitting size s.current_end
      → fit size bs ≡ none
      → Serves lo size s bs again
      → Expanded lo size s bs r
      → Allocated lo size s bs (do (grown, s') ← r; if grown then again s' else ok (null, s'))
  grow_then lo size s bs again out_of_fuel want e serves x = x
  grow_then lo size s bs again (ok (false, s')) want e serves (failed, v) = inr (refl, v, e, failed)
  grow_then lo size s bs again (ok (true, s')) want e serves (mapped, v) =
      let (enough, some_page) = pages_for-le size want.no_wrap in
      let (r, f) = fit-append size bs (added size s.current_end) e refl (omega arith) in
      let (s'', g, w) = serves s' r v f in
      rw g (inl (Allocates-old lo size r.0 s s'' bs (Allocates_of_fit lo size _ s' s'' v f w)))

  -- With fuel for the blocks and one more, and one call of itself, an allocation of a size that is
  -- not zero and can be rounded up to pages hands out a new region of that size, or up to 15 bytes
  -- more, and leaves the other regions as they were; or it returns NULL and leaves the blocks as
  -- they were, where no free block is large enough and no pages are to be had.
  pub malloc-Allocated :
      (fuel calls lo size : ℕ) (s : Heap source) (bs : List Block)
      → length bs + 1 < fuel
      → IsHeap lo s bs
      → Fitting size s.current_end
      → Allocated lo size s bs (malloc source fuel (suc (suc calls)) size s)
  malloc-Allocated fuel calls lo size s bs enough v want = elim (Option-cases (fit size bs)) [
    | inr (r, e) ↦
        let (s', f, w) = malloc-fit fuel (suc calls) lo size s bs want.positive (omega arith) v e in
        rw f (inl (Allocates_of_fit lo size bs s s' v e w))
    | inl e ↦ misses bs enough v e
  ]
    where
      misses :
          (bs : List Block)
          → length bs + 1 < fuel
          → IsHeap lo s bs
          → fit size bs ≡ none
          → Allocated lo size s bs (malloc source fuel (suc (suc calls)) size s)
      misses [] enough v e =
          let empty : (s.start == null) ≡ true = ground (arith, v.chain) in
          rw (malloc-empty fuel (suc calls) size s want.positive empty) (
            grow_then lo size s [] (place source fuel (malloc source fuel (suc calls) size) size)
              (expand source fuel size s) want e
              (λ s' r w f.
                place-fit fuel lo size (malloc source fuel (suc calls) size) s' _ (omega arith) w f)
              (expand-Expanded fuel lo size s [] (omega arith) v want))
      misses (b ∷ bs) enough v e =
          rw
            (
              malloc-some fuel (suc calls) size s want.positive (start-null lo s b bs v),
              place-none fuel lo size (malloc source fuel (suc calls) size) s (b ∷ bs) (omega arith)
                  v e,
            )
            (grow_then lo size s (b ∷ bs) (malloc source fuel (suc calls) size)
              (expand source fuel size s) want e
              (λ s' r w f.
                malloc-fit fuel calls lo size s' _ want.positive
                  (omega (arith, length-append (b ∷ bs) (added size s.current_end ∷ []))) w f)
              (expand-Expanded fuel lo size s (b ∷ bs) (omega arith) v want))
