-- ===== src/Heap/Blocks.antt =====
-- The heap as a list of blocks in address order: what the search, the split and the coalescing do
-- to it, and what they keep.
use icosaos.Prelude.{
  ℕ, ◌+◌, ◌-◌, ◌≤◌, ◌≡◌, refl, ◌⊎◌, inl, inr, Bool, true, false, ◌&&◌, Option, none, some, List, [],
  ◌∷◌, ◌++◌, arith, leb, not, ◌==◌, if◌then◌else◌, Bool-cases,
}
use mathlib.Core.Option
use icosaos.Heap.{header_size}

pub record Block : Type 0 where
  pub addr : ℕ
  pub size : ℕ
  pub free : Bool

-- The address behind the block.
abbrev pub end_of : Block → ℕ
end_of b = b.addr + header_size + b.size

-- The blocks lie between `lo` and `hi`, in ascending order and without overlap, headers included.
abbrev pub Placed : ℕ → List Block → ℕ → Type 0
Placed lo [] hi = lo ≤ hi
Placed lo (b ∷ bs) hi = (lo ≤ b.addr) × Placed (end_of b) bs hi

-- A block from which `size` bytes are taken: split when a header and four bytes are left over.
unfoldable pub taken : ℕ → Block → List Block
taken size b =
    if leb (size + header_size + 4) b.size
    then record { addr = b.addr; size = size; free = false }
      ∷ record {
        addr = b.addr + header_size + size;
        size = b.size - size - header_size;
        free = true;
      }
      ∷ []
    else record { addr = b.addr; size = b.size; free = false } ∷ []

abbrev pub keep : Block → ℕ × List Block → ℕ × List Block
keep b (p, bs) = (p, b ∷ bs)

unfoldable pub fit : ℕ → List Block → Option (ℕ × List Block)
fit size [] = none
fit size (b ∷ bs) =
    let rest = Option.map (keep b) (fit size bs) in
    if b.free && leb size b.size then some (b.addr + header_size, taken size b ++ bs) else rest

-- Neighbours that are both free become one block.
unfoldable pub merge_from : Block → List Block → List Block
merge_from b [] = b ∷ []
merge_from b (c ∷ cs) =
    let joined = merge_from (record b { size = b.size + (header_size + c.size) }) cs in
    let kept = b ∷ merge_from c cs in if b.free && c.free then joined else kept

unfoldable pub merge : List Block → List Block
merge [] = []
merge (b ∷ bs) = merge_from b bs

-- `header->is_free = 1` for the block at address `a`.
unfoldable pub free_at : ℕ → List Block → List Block
free_at a [] = []
free_at a (b ∷ bs) = if b.addr == a then record b { free = true } ∷ bs else b ∷ free_at a bs

-- The map from each pointer that is handed out to the size of its region.
unfoldable pub region : List Block → ℕ → Option ℕ
region [] q = none
region (b ∷ bs) q = if (b.addr + header_size == q) && not b.free then some b.size else region bs q

-- No two neighbours are free.
abbrev pub Coalesced : List Block → Type 0
Coalesced [] = Unit {0}
Coalesced (b ∷ []) = Unit {0}
Coalesced (b ∷ c ∷ cs) = ((b.free && c.free) ≡ false) × Coalesced (c ∷ cs)

pub Placed-le : (bs : List Block) (lo hi : ℕ) → Placed lo bs hi → lo ≤ hi
Placed-le [] lo hi h = h
Placed-le (b ∷ bs) lo hi h = omega (arith, Placed-le bs (end_of b) hi h.1)

pub Placed-lower : (bs : List Block) (lo lo' hi : ℕ) → lo' ≤ lo → Placed lo bs hi → Placed lo' bs hi
Placed-lower [] lo lo' hi le h = omega arith
Placed-lower (b ∷ bs) lo lo' hi le h = (omega arith, h.1)

-- The block taken is the first of the two, and what is left over lies behind it.
taken-Placed :
    (size : ℕ) (b : Block) (bs : List Block) (hi : ℕ)
    → size ≤ b.size
    → Placed (end_of b) bs hi
    → Placed b.addr (taken size b ++ bs) hi
unfolding taken
taken-Placed size b bs hi le h = elim (Bool-cases (leb (size + header_size + 4) b.size)) [
  | inl split ↦
      let e : b.addr + header_size + size + header_size + (b.size - size - header_size) ≡ end_of b =
        ground arith in
      rw split (omega arith, (omega arith, rw e h))
  | inr whole ↦ rw whole (omega arith, h)
]

-- A search that succeeds took the first block or one behind it.
pub fit-cases :
    (size : ℕ) (b : Block) (bs : List Block) {p : ℕ} {bs' : List Block}
    → fit size (b ∷ bs) ≡ some (p, bs')
    → (b.free ≡ true) × (size ≤ b.size) × (p ≡ b.addr + header_size) × (bs' ≡ taken size b ++ bs)
      ⊎ ((bs'' : List Block) × (fit size bs ≡ some (p, bs'')) × (bs' ≡ b ∷ bs''))
unfolding fit
fit-cases size b bs {p} {bs'} e = elim (Bool-cases (b.free && leb size b.size)) [
  | inl hit ↦ inl (ground arith, ground arith, ground arith, ground arith)
  | inr miss ↦ inr (behind (fit size bs) refl (rw miss at e))
]
  where
    behind :
        (o : Option (ℕ × List Block))
        → fit size bs ≡ o
        → Option.map (keep b) o ≡ some (p, bs')
        → (bs'' : List Block) × (fit size bs ≡ some (p, bs'')) × (bs' ≡ b ∷ bs'')
    behind none f g = absurd (cc)
    behind (some (q, cs)) f g = (cs, ground arith, ground arith)

-- The search of the list keeps the blocks apart.
pub fit-Placed :
    (size : ℕ) (bs : List Block) (lo hi : ℕ) {p : ℕ} {bs' : List Block}
    → fit size bs ≡ some (p, bs')
    → Placed lo bs hi
    → Placed lo bs' hi
unfolding fit
fit-Placed size [] lo hi e h = absurd (cc)
fit-Placed size (b ∷ bs) lo hi {bs'} e h = elim (fit-cases size b bs e) [
  | inl (free, le, p, f) ↦
      rw f (Placed-lower (taken size b ++ bs) b.addr lo hi h.0 (taken-Placed size b bs hi le h.1))
  | inr (bs'', f, g) ↦ rw g (h.0, fit-Placed size bs (end_of b) hi f h.1)
]
