-- ===== src/Heap/Chain.antt =====
-- When the headers in memory hold a list of blocks.
use icosaos.Prelude.{ℕ, suc, ◌+◌, ◌≤◌, ◌<◌, ◌^◌, ◌≡◌, Option, none, some, List, [], ◌∷◌, arith}
use mathlib.Core.Path.{sym, subst}
use icosaos.Heap.{header_size, null, Headers, Search, found, missing}
use icosaos.Heap.Blocks.{Block, end_of, Placed, Placed-le}

abbrev pub length {ℓ} : {A : Type ℓ} → List A → ℕ
length [] = 0
length (x ∷ xs) = suc (length xs)

-- From `p` the `next` pointers lead through the headers of the blocks to NULL.
abbrev pub Chain : Headers → ℕ → List Block → Type 0
Chain h p [] = p ≡ null
Chain h p (b ∷ bs) =
    (p ≡ b.addr)
    × ((h b.addr).size ≡ b.size)
    × ((h b.addr).is_free ≡ b.free)
    × Chain h (h b.addr).next bs

-- The heap starts behind the first addresses and ends within the address space.
abbrev pub Fits : ℕ → ℕ → Type 0
Fits lo hi = (header_size + 4 ≤ lo) × (hi < 2 ^ 32)

abbrev pub SameFrom : ℕ → Headers → Headers → Type 0
SameFrom lo h g = (a : ℕ) → lo ≤ a → g a ≡ h a

abbrev pub SameBelow : ℕ → Headers → Headers → Type 0
SameBelow lo h g = (a : ℕ) → a < lo → g a ≡ h a

-- A chain survives any change below its first block.
pub Chain-frame :
    {h g : Headers} (p : ℕ) (bs : List Block) (lo hi : ℕ)
    → SameFrom lo h g
    → Placed lo bs hi
    → Chain h p bs
    → Chain g p bs
Chain-frame p [] lo hi same placed c = c
Chain-frame {h} {g} p (b ∷ bs) lo hi same placed (at, size, free, rest) =
    let e : g b.addr ≡ h b.addr = same b.addr placed.0 in
    rw e (
      at,
      size,
      free,
      Chain-frame (h b.addr).next bs (end_of b) hi (λ a le. same a (omega arith)) placed.1 rest,
    )

-- The search in memory is the search of the list: it finds the same pointer, leaves the blocks of
-- the list in the chain, and writes nothing below.
abbrev pub Refines : Headers → ℕ → ℕ → Option (ℕ × List Block) → Search → Type 0
Refines h lo p none missing = Unit {0}
Refines h lo p (some (q, bs)) (found r g) = (r ≡ q) × Chain g p bs × SameBelow lo h g
Refines h lo p o s = ⊥

pub Chain-subst : (g : Headers) {p q : ℕ} (bs : List Block) → p ≡ q → Chain g q bs → Chain g p bs
Chain-subst g bs e c = subst (λ p. Chain g p bs) (sym e) c

-- A chain survives any change behind its last block.
pub Chain-frame_below :
    {h g : Headers} (p : ℕ) (bs : List Block) (lo hi : ℕ)
    → SameBelow hi h g
    → Placed lo bs hi
    → Chain h p bs
    → Chain g p bs
Chain-frame_below p [] lo hi same placed c = c
Chain-frame_below {h} {g} p (b ∷ bs) lo hi same placed (at, size, free, rest) =
    let below = Placed-le bs (end_of b) hi placed.1 in
    let e : g b.addr ≡ h b.addr = same b.addr (omega arith) in
    rw e (at, size, free, Chain-frame_below (h b.addr).next bs (end_of b) hi same placed.1 rest)
