-- ===== src/Heap/Expand.antt =====
-- The heap as a whole, and its growth by one block.
use icosaos.Prelude.{
  ℕ, ◌+◌, ◌-◌, ◌*◌, ◌≤◌, ◌<◌, ◌^◌, ◌≡◌, refl, inl, inr, Bool, true, false, ◌&&◌, none, some, List,
  [], ◌∷◌, ◌++◌, arith, leb, Bool-cases, update, sub32, mul32, Run, ok, out_of_fuel, ◌>>=◌,
}
use icosaos.Heap.{header_size, page_size, null, Headers, PageSource, Heap, pages_for, expand}
use icosaos.Heap.Blocks.{Block, end_of, Placed, taken, fit, keep, region}
use icosaos.Heap.Chain.{Chain, Chain-frame_below, Fits, length}
use icosaos.Heap.Coalesce.{Attached, append_block-Attached}

-- The headers of the heap hold the blocks, which lie between `lo` and the end of the heap.
pub record IsHeap {source : PageSource} (lo : ℕ) (s : Heap source) (bs : List Block) : Type 0 where
  pub chain : Chain s.headers s.start bs
  pub placed : Placed lo bs s.current_end
  pub fits : Fits lo s.current_end

-- A request that can be rounded up to pages at 32 bits, and whose pages fit behind the heap.
pub record Fitting (size end : ℕ) : Type 0 where
  pub positive : 0 < size
  pub no_wrap : size + header_size + page_size < 2 ^ 32
  pub room : end + pages_for size * page_size < 2 ^ 32

pub pages_for-le :
    (size : ℕ)
    → size + header_size + page_size < 2 ^ 32
    → (size + header_size ≤ pages_for size * page_size) × (0 < pages_for size)
unfolding pages_for
pages_for-le size h = omega arith

-- The block that an expansion for `size` bytes adds at `end`.
abbrev pub added : ℕ → ℕ → Block
added size end = record { addr = end; size = pages_for size * page_size - header_size; free = true }

pub Placed-append :
    (bs : List Block) (lo mid hi : ℕ) (b : Block)
    → Placed lo bs mid
    → mid ≤ b.addr
    → end_of b ≤ hi
    → Placed lo (bs ++ b ∷ []) hi
Placed-append [] lo mid hi b h le end = (omega arith, end)
Placed-append (c ∷ cs) lo mid hi b h le end = (h.0, Placed-append cs (end_of c) mid hi b h.1 le end)

pub Placed-raise : (bs : List Block) (lo mid hi : ℕ) → Placed lo bs mid → mid ≤ hi → Placed lo bs hi
Placed-raise [] lo mid hi h le = omega arith
Placed-raise (c ∷ cs) lo mid hi h le = (h.0, Placed-raise cs (end_of c) mid hi h.1 le)

-- A free block at the end hands out nothing.
pub region-append_free :
    (bs : List Block) (b : Block) (q : ℕ) → b.free ≡ true → region (bs ++ b ∷ []) q ≡ region bs q
unfolding region
region-append_free [] b q free = ground arith
region-append_free (c ∷ cs) b q free = ground (arith, region-append_free cs b q free)

-- A search that fails in the blocks takes a free block of enough bytes behind them.
pub fit-append :
    (size : ℕ) (bs : List Block) (b : Block)
    → fit size bs ≡ none
    → b.free ≡ true
    → size ≤ b.size
    → (r : ℕ × List Block) × (fit size (bs ++ b ∷ []) ≡ some r)
unfolding fit
fit-append size [] b e free le = ((b.addr + header_size, taken size b ++ []), ground arith)
fit-append size (c ∷ cs) b e free le = elim (Bool-cases (c.free && leb size c.size)) [
  | inl hit ↦ absurd (ground (arith, e))
  | inr miss ↦
      let none_behind : fit size cs ≡ none = ground arith in
      let (r, f) = fit-append size cs b none_behind free le in (keep c r, rw (miss, f))
]

module _ {source : PageSource} where
  open source use {grow, grow_end}

  -- How an expansion for `size` bytes ends, from the heap `s` of the blocks `bs`: without the pages
  -- the blocks are as before, and with them a free block for the request stands behind them.
  abbrev pub Expanded : ℕ → ℕ → Heap source → List Block → Run (Bool × Heap source) → Type 0
  Expanded lo size s bs (ok (true, s')) =
      ((grow s.current_end (pages_for size) s.sys).0 ≡ true)
      × IsHeap lo s' (bs ++ added size s.current_end ∷ [])
  Expanded lo size s bs (ok (false, s')) =
      ((grow s.current_end (pages_for size) s.sys).0 ≡ false) × IsHeap lo s' bs
  Expanded lo size s bs out_of_fuel = ⊥

  abbrev fresh : ℕ → Heap source → Headers
  fresh size s = update s.headers s.current_end (record {
    size = sub32 (mul32 (pages_for size) page_size) header_size;
    is_free = true;
    next = null;
  })

  fresh-Chain :
      (size lo : ℕ) (s : Heap source) (bs : List Block) (p : ℕ)
      → Fitting size s.current_end
      → Placed lo bs s.current_end
      → Chain s.headers p bs
      → Chain (fresh size s) p bs
        × Chain (fresh size s) s.current_end (added size s.current_end ∷ [])
  fresh-Chain size lo s bs p want placed chain =
      let (enough, some_page) = pages_for-le size want.no_wrap in
      let sized : sub32 (mul32 (pages_for size) page_size) header_size
          ≡ pages_for size * page_size - header_size =
        omega arith in
      (
        Chain-frame_below {g = fresh size s} p bs lo s.current_end (λ a lt. ground arith) placed
            chain,
        (refl, ground arith, ground arith, ground arith),
      )

  grown-IsHeap :
      (lo size : ℕ) (s s' : Heap source) (bs : List Block)
      → IsHeap lo s bs
      → Fitting size s.current_end
      → s'.current_end ≡ s.current_end + pages_for size * page_size
      → Chain s'.headers s'.start (bs ++ added size s.current_end ∷ [])
      → IsHeap lo s' (bs ++ added size s.current_end ∷ [])
  grown-IsHeap lo size s s' bs v want end chain =
      let (enough, some_page) = pages_for-le size want.no_wrap in
      let room = want.room in
      record {
        chain = chain;
        placed =
            Placed-append bs lo s.current_end s'.current_end (added size s.current_end) v.placed
              (omega arith) (omega arith);
        fits = (v.fits.0, omega arith);
      }

  -- With more fuel than blocks, expanding a heap for a size that is not zero and can be rounded up to
  -- pages that fit behind it adds one free block with those pages at the end of the heap; or it fails
  -- for want of pages and leaves the blocks as they are.
  pub expand-Expanded :
      (fuel lo size : ℕ) (s : Heap source) (bs : List Block)
      → length bs < fuel
      → IsHeap lo s bs
      → Fitting size s.current_end
      → Expanded lo size s bs (expand source fuel size s)
  unfolding expand
  expand-Expanded fuel lo size s bs enough v want =
      let room = want.room in
      let bounds = grow_end s.current_end (pages_for size) s.sys room in
      let chains = fresh-Chain size lo s bs s.start want v.placed v.chain in
      elim (Bool-cases (grow s.current_end (pages_for size) s.sys).0) [
        | inl mapped ↦ rw mapped (
            attached mapped (bounds.2 mapped) _ (
              append_block-Attached fuel (fresh size s) s.start bs (added size s.current_end) lo
                enough v.fits.0 v.placed chains.0 chains.1))
        | inr failed ↦ rw failed (
          failed,
          record {
            chain = v.chain;
            placed = Placed-raise bs lo s.current_end _ v.placed bounds.0;
            fits = (v.fits.0, omega arith);
          },
        )
      ]
    where
      attached :
          (grow s.current_end (pages_for size) s.sys).0 ≡ true
          → (grow s.current_end (pages_for size) s.sys).1
            ≡ s.current_end + pages_for size * page_size
          → (r : Run (ℕ × Headers)) → Attached (bs ++ added size s.current_end ∷ []) r
          → Expanded lo size s bs (do
            (start, linked) ← r
            ok (
              true,
              record {
                headers = linked;
                start = start;
                current_end = (grow s.current_end (pages_for size) s.sys).1;
                sys = (grow s.current_end (pages_for size) s.sys).2;
              },
            ))
      attached mapped end (ok (p, g)) chain = (mapped, grown-IsHeap lo size s _ bs v want end chain)
      attached mapped end out_of_fuel chain = chain
