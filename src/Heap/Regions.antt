-- ===== src/Heap/Regions.antt =====
-- What the operations on the list of blocks do to the map of the regions handed out.
use icosaos.Prelude.{
  ℕ, ◌+◌, ◌≤◌, ◌<◌, ◌≡◌, refl, ◌⊎◌, inl, inr, true, false, ◌&&◌, ◌≢◌, none, some, List, [], ◌∷◌,
  ◌++◌, arith, leb, if◌then◌else◌, Bool-cases, ◌==◌,
}
use icosaos.Heap.{header_size}
use icosaos.Heap.Blocks.{
  Block, end_of, Placed, taken, fit, fit-cases, fit-Placed, merge_from, merge, free_at, region,
  Coalesced, Placed-lower, Placed-le,
}

-- A region lies within the bounds of its blocks, behind a header.
pub region_bounds :
    (bs : List Block) (lo hi q n : ℕ)
    → Placed lo bs hi
    → region bs q ≡ some n
    → (lo + header_size ≤ q) × (q + n ≤ hi)
unfolding region
region_bounds [] lo hi q n h e = absurd (cc)
region_bounds (b ∷ bs) lo hi q n h e =
    ground (arith, region_bounds bs (end_of b) hi q n h.1, Placed-le bs (end_of b) hi h.1)

-- In a heap whose blocks lie apart, the regions of two different pointers that are handed out do not
-- overlap, and a header lies between them.
pub region_apart :
    (bs : List Block) (lo hi p q n m : ℕ)
    → Placed lo bs hi
    → region bs p ≡ some n
    → region bs q ≡ some m
    → p ≢ q
    → (p + n + header_size ≤ q) ⊎ (q + m + header_size ≤ p)
unfolding region
region_apart [] lo hi p q n m h e f ne = absurd (cc)
region_apart (b ∷ bs) lo hi p q n m h e f ne = ground (
  arith,
  region_bounds bs (end_of b) hi p n h.1,
  region_bounds bs (end_of b) hi q m h.1,
  region_apart bs (end_of b) hi p q n m h.1,
)

region-none :
    (bs : List Block) (lo hi q : ℕ) → Placed lo bs hi → q < lo + header_size → region bs q ≡ none
unfolding region
region-none [] lo hi q h lt = refl
region-none (b ∷ bs) lo hi q h lt = ground (arith, region-none bs (end_of b) hi q h.1)

region-taken :
    (size : ℕ) (b : Block) (bs : List Block) (hi : ℕ)
    → b.free ≡ true
    → size ≤ b.size
    → Placed (end_of b) bs hi
    → (n : ℕ) × (size ≤ n)
      × (n < size + 16)
      × (n ≤ b.size)
      × ((q : ℕ)
          → region (taken size b ++ bs) q
            ≡ (if b.addr + header_size == q then some n else region bs q))
unfolding region taken
region-taken size b bs hi free le h = elim (Bool-cases (leb (size + header_size + 4) b.size)) [
  | inl split ↦ rw split (size, omega arith, omega arith, le, λ q. ground arith)
  | inr whole ↦ rw whole (b.size, le, ground arith, omega arith, λ q. ground arith)
]

-- The pointer that a search finds was not handed out before; afterwards it stands for a region of
-- the size asked for, or up to 15 bytes more, and the other regions are as they were.
pub region-fit :
    (size : ℕ) (bs : List Block) (lo hi : ℕ) {p : ℕ} {bs' : List Block}
    → fit size bs ≡ some (p, bs')
    → Placed lo bs hi
    → (n : ℕ) × (size ≤ n)
      × (n < size + 16)
      × (region bs p ≡ none)
      × ((q : ℕ) → region bs' q ≡ (if p == q then some n else region bs q))
unfolding fit region
region-fit size [] lo hi e h = absurd (cc)
region-fit size (b ∷ bs) lo hi {p} {bs'} e h = elim (fit-cases size b bs e) [
  | inl (free, le, at, f) ↦
      let (n, ge, lt, le', g) = region-taken size b bs hi free le h.1 in
      (
        n,
        ge,
        lt,
        rw at (ground (arith, region-none bs (end_of b) hi (b.addr + header_size) h.1)),
        λ q. rw (f, at) (ground (arith, g q)),
      )
  | inr (bs'', f, g) ↦
      let (n, ge, lt, new, r) = region-fit size bs (end_of b) hi f h.1 in
      let self : region bs'' p ≡ some n = ground (arith, r p) in
      let (low, high) =
        region_bounds bs'' (end_of b) hi p n (fit-Placed size bs (end_of b) hi f h.1) self in
      (n, ge, lt, ground arith, λ q. rw g (ground (arith, r q)))
]

merge_from-region :
    (b : Block) (bs : List Block) (q : ℕ) → region (merge_from b bs) q ≡ region (b ∷ bs) q
unfolding merge_from region
merge_from-region b [] q = refl
merge_from-region b (c ∷ cs) q = ground (
  arith,
  merge_from-region c cs q,
  merge_from-region (record b { size = b.size + (header_size + c.size) }) cs q,
)

-- Coalescing leaves every region that is handed out as it was.
pub merge-region : (bs : List Block) (q : ℕ) → region (merge bs) q ≡ region bs q
unfolding merge
merge-region [] q = refl
merge-region (b ∷ bs) q = merge_from-region b bs q

merge_from-Placed :
    (b : Block) (bs : List Block) (lo hi : ℕ)
    → Placed lo (b ∷ bs) hi
    → Placed lo (merge_from b bs) hi
unfolding merge_from
merge_from-Placed b [] lo hi h = h
merge_from-Placed b (c ∷ cs) lo hi h = elim (Bool-cases (b.free && c.free)) [
  | inl both ↦ rw both (
      merge_from-Placed (record b { size = b.size + (header_size + c.size) }) cs lo hi
        (h.0, Placed-lower cs (end_of c) _ hi (omega arith) h.1.1))
  | inr one ↦ rw one (h.0, merge_from-Placed c cs (end_of b) hi h.1)
]

-- Coalescing keeps the blocks apart.
pub merge-Placed : (bs : List Block) (lo hi : ℕ) → Placed lo bs hi → Placed lo (merge bs) hi
unfolding merge
merge-Placed [] lo hi h = h
merge-Placed (b ∷ bs) lo hi h = merge_from-Placed b bs lo hi h

Coalesced-cons :
    (a b : Block) (bs : List Block) → (a.free && b.free) ≡ false → Coalesced (a ∷ merge_from b bs)
unfolding merge_from
Coalesced-cons a b [] h = (h, tt)
Coalesced-cons a b (c ∷ cs) h = elim (Bool-cases (b.free && c.free)) [
  | inl both ↦ rw both (Coalesced-cons a (record b { size = b.size + (header_size + c.size) }) cs h)
  | inr one ↦ rw one (h, Coalesced-cons b c cs one)
]

merge_from-Coalesced : (b : Block) (bs : List Block) → Coalesced (merge_from b bs)
unfolding merge_from
merge_from-Coalesced b [] = tt
merge_from-Coalesced b (c ∷ cs) = elim (Bool-cases (b.free && c.free)) [
  | inl both ↦
      rw both (merge_from-Coalesced (record b { size = b.size + (header_size + c.size) }) cs)
  | inr one ↦ rw one (Coalesced-cons b c cs one)
]

-- Coalescing leaves no two neighbours free.
pub merge-Coalesced : (bs : List Block) → Coalesced (merge bs)
unfolding merge
merge-Coalesced [] = tt
merge-Coalesced (b ∷ bs) = merge_from-Coalesced b bs

pub free_at-Placed :
    (a : ℕ) (bs : List Block) (lo hi : ℕ) → Placed lo bs hi → Placed lo (free_at a bs) hi
unfolding free_at
free_at-Placed a [] lo hi h = h
free_at-Placed a (b ∷ bs) lo hi h = elim (Bool-cases (b.addr == a)) [
  | inl here ↦ rw here h
  | inr there ↦ rw there (h.0, free_at-Placed a bs (end_of b) hi h.1)
]

-- Freeing the block at `a` takes its region from the map, and no other.
pub region-free_at :
    (a q : ℕ) (bs : List Block) (lo hi : ℕ)
    → Placed lo bs hi
    → region (free_at a bs) q ≡ (if a + header_size == q then none else region bs q)
unfolding region free_at
region-free_at a q [] lo hi h = ground arith
region-free_at a q (b ∷ bs) lo hi h =
    ground (arith, region-free_at a q bs (end_of b) hi h.1, region-none bs (end_of b) hi q h.1)
