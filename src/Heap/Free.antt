-- ===== src/Heap/Free.antt =====
-- `kfree` and `ufree` against the map of the regions handed out.
use icosaos.Prelude.{
  ℕ, ◌-◌, ◌<◌, ◌≡◌, refl, inl, inr, true, false, none, some, List, [], ◌∷◌, arith, if◌then◌else◌,
  Bool-cases, ◌==◌, update, sub32, Run, ok, out_of_fuel, ◌>>=◌,
}
use icosaos.Heap.{header_size, null, Headers, PageSource, Heap, free}
use icosaos.Heap.Blocks.{Block, end_of, Placed, free_at, merge, region, Coalesced}
use icosaos.Heap.Regions.{
  merge-region, merge-Placed, merge-Coalesced, free_at-Placed, region-free_at, region_bounds,
}
use icosaos.Heap.Chain.{Chain, Chain-frame, Chain-subst, length}
use icosaos.Heap.Coalesce.{Holds, coalesce-merge}
use icosaos.Heap.Expand.{IsHeap}
use icosaos.Heap.Malloc.{Allocates}

length-free_at : (a : ℕ) (bs : List Block) → length (free_at a bs) ≡ length bs
unfolding free_at
length-free_at a [] = refl
length-free_at a (b ∷ bs) = ground (arith, length-free_at a bs)

abbrev release : ℕ → Headers → Headers
release a h = update h a (record (h a) { is_free = true })

release-Chain :
    (h : Headers) (a p : ℕ) (bs : List Block) (lo hi : ℕ)
    → Placed lo bs hi
    → Chain h p bs
    → Chain (release a h) p (free_at a bs)
unfolding free_at
release-Chain h a p [] lo hi placed chain = chain
release-Chain h a p (b ∷ bs) lo hi placed (at, sized, free, rest) =
    elim (Bool-cases (b.addr == a)) [
      | inl here ↦ rw here (
        at,
        ground arith,
        ground arith,
        Chain-subst (release a h) bs (ground arith) (
            Chain-frame {g = release a h} (h b.addr).next bs (end_of b) hi (λ c ge. ground arith)
              placed.1 rest),
      )
      | inr there ↦ rw there (
        at,
        ground arith,
        ground arith,
        Chain-subst (release a h) (free_at a bs) (ground arith)
            (release-Chain h a (h b.addr).next bs (end_of b) hi placed.1 rest),
      )
    ]

module _ {source : PageSource} where
  -- The heap after `kfree(p)`: the region of `p` is no longer handed out, the others are as they
  -- were, and no two neighbours are free.
  pub record Frees (lo : ℕ) (bs : List Block) (p : ℕ) (s : Heap source) : Type 0 where
    pub blocks : List Block
    pub is_heap : IsHeap lo s blocks
    pub coalesced : Coalesced blocks
    pub regions : (q : ℕ) → region blocks q ≡ (if p == q then none else region bs q)

  abbrev pub Freed : ℕ → List Block → ℕ → Run (Heap source) → Type 0
  Freed lo bs p (ok s) = Frees lo bs p s
  Freed lo bs p out_of_fuel = ⊥

  -- With more fuel than blocks, freeing a pointer that was handed out takes its region from the
  -- map and no other, keeps the blocks apart and leaves no two neighbours free.
  pub free-Freed :
      (fuel lo p n : ℕ) (s : Heap source) (bs : List Block)
      → length bs < fuel
      → IsHeap lo s bs
      → region bs p ≡ some n
      → Freed lo bs p (free source fuel p s)
  unfolding free
  free-Freed fuel lo p n s bs enough v e =
      let (low, high) = region_bounds bs lo s.current_end p n v.placed e in
      let fits = v.fits in
      let nonnull : (p == null) ≡ false = ground arith in
      let header : sub32 p header_size ≡ p - header_size = omega arith in
      let placed = free_at-Placed (p - header_size) bs lo s.current_end v.placed in
      rw (nonnull, header)
        (finish _ (
          coalesce-merge fuel (release (p - header_size) s.headers) s.start
            (free_at (p - header_size) bs) lo s.current_end
            (omega (arith, length-free_at (p - header_size) bs)) v.fits placed
            (release-Chain s.headers (p - header_size) s.start bs lo s.current_end v.placed
              v.chain)))
    where
      finish :
          (r : Run Headers)
          → Holds
              (release (p - header_size) s.headers)
              lo
              s.start
              (merge (free_at (p - header_size) bs))
              r
          → Freed lo bs p (r >>= λ merged. ok (record s { headers = merged }))
      finish out_of_fuel held = held
      finish (ok g) held = record {
        blocks = merge (free_at (p - header_size) bs);
        is_heap = record {
          chain = held.0;
          placed =
              merge-Placed (free_at (p - header_size) bs) lo s.current_end
                (free_at-Placed (p - header_size) bs lo s.current_end v.placed);
          fits = v.fits;
        };
        coalesced = merge-Coalesced (free_at (p - header_size) bs);
        regions = λ q. ground (
          arith,
          merge-region (free_at (p - header_size) bs) q,
          region-free_at (p - header_size) q bs lo s.current_end v.placed,
          region_bounds bs lo s.current_end p n v.placed e,
        );
      }

  -- With more fuel than blocks, freeing the pointer that an allocation just handed out ends, and
  -- leaves every region as it was before the allocation.
  pub free-malloc :
      (fuel lo size p : ℕ) (s : Heap source) (bs : List Block) (a : Allocates lo size bs p s)
      → length a.blocks < fuel
      → (s' : Heap source) × (bs' : List Block) × (free source fuel p s ≡ ok s')
        × IsHeap lo s' bs'
        × ((q : ℕ) → region bs' q ≡ region bs q)
  free-malloc fuel lo size p s bs a enough =
      ended (free source fuel p s) refl
        (free-Freed fuel lo p a.granted s a.blocks enough a.is_heap (ground (arith, a.regions p)))
    where
      ended :
          (r : Run (Heap source))
          → free source fuel p s ≡ r
          → Freed lo a.blocks p r
          → (s' : Heap source) × (bs' : List Block) × (free source fuel p s ≡ ok s')
            × IsHeap lo s' bs'
            × ((q : ℕ) → region bs' q ≡ region bs q)
      ended (ok s') e f =
          (s', f.blocks, e, f.is_heap, λ q. ground (arith, f.regions q, a.regions q, a.new))
      ended out_of_fuel e f = absurd f
