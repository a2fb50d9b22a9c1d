-- ===== src/Heap/Take.antt =====
-- The search of the heap in memory, against the search of the list of blocks.
use icosaos.Prelude.{
  ℕ, zero, suc, ◌+◌, ◌-◌, ◌≤◌, ◌<◌, ◌^◌, ◌≡◌, refl, inl, inr, true, false, ◌&&◌, Option, none, some,
  List, [], ◌∷◌, ◌++◌, arith, leb, if◌then◌else◌, Bool-cases, ◌==◌, add32, sub32,
}
use mathlib.Core.Option
use icosaos.Heap.{
  header_size, null, Headers, take_block, search, Search, found, missing, search_out_of_fuel,
}
use icosaos.Heap.Blocks.{Block, end_of, Placed, taken, fit, keep, Placed-le}
use icosaos.Heap.Chain.{Chain, Chain-frame, Fits, Refines, length, Chain-subst}

-- The headers after `take_block`, address by address, where no sum leaves the address space.
module _ (h : Headers) (size c : ℕ) (low : header_size + 4 ≤ c)
    (high : c + header_size + (h c).size < 2 ^ 32) (le : size ≤ (h c).size) where
  take_block-address : (take_block size c h).0 ≡ c + header_size
  unfolding take_block
  take_block-address = omega arith

  module _ (split : size + header_size + 4 ≤ (h c).size) where
    take_block_split :
        (a : ℕ)
        → (take_block size c h).1 a ≡ (
            if c == a
            then record { size = size; is_free = false; next = c + header_size + size }
            else if c + header_size + size == a
            then record {
              size = (h c).size - size - header_size;
              is_free = true;
              next = (h c).next;
            }
            else h a)
    unfolding take_block
    take_block_split a =
        let e : add32 (add32 c header_size) size ≡ c + header_size + size = omega arith in
        let f : leb (add32 (add32 size header_size) 4) (h c).size ≡ true = ground arith in
        let g : sub32 (sub32 (h c).size size) header_size ≡ (h c).size - size - header_size =
          omega arith in
        rw (e, f, g) (ground arith)

  module _ (tight : (h c).size < size + header_size + 4) where
    take_block_whole :
        (a : ℕ)
        → (take_block size c h).1 a ≡ (if c == a then record (h c) { is_free = false } else h a)
    unfolding take_block
    take_block_whole a =
        let f : leb (add32 (add32 size header_size) 4) (h c).size ≡ false = ground arith in
        rw f (ground arith)

take_block-Refines :
    (h : Headers) (size : ℕ) (b : Block) (bs : List Block) (lo hi : ℕ)
    → Fits lo hi
    → size ≤ b.size
    → Placed lo (b ∷ bs) hi
    → Chain h b.addr (b ∷ bs)
    → Refines h lo b.addr
        (some (b.addr + header_size, taken size b ++ bs))
        (let (p, g) = take_block size b.addr h in found p g)
unfolding taken
take_block-Refines h size b bs lo hi fits le placed (at, sized, free, rest) =
    let in_space = Placed-le bs (end_of b) hi placed.1 in
    let low : header_size + 4 ≤ b.addr = omega arith in
    let high : b.addr + header_size + (h b.addr).size < 2 ^ 32 = omega arith in
    let le' : size ≤ (h b.addr).size = omega arith in
    let returned = take_block-address h size b.addr low high le' in
    elim (Bool-cases (leb (size + header_size + 4) b.size)) [
      | inl split ↦
          let w = take_block_split h size b.addr low high le' (ground arith) in
          let first = w b.addr in
          let second = w (b.addr + header_size + size) in
          let tail =
            Chain-frame {g = (take_block size b.addr h).1} (h b.addr).next bs (end_of b) hi
              (λ a ge. ground (arith, w a)) placed.1 rest in
          rw split (
            returned,
            (
              refl,
              ground (arith, first),
              ground (arith, first),
              (
                ground (arith, first),
                ground (arith, second),
                ground (arith, second),
                Chain-subst _ bs (ground (arith, second)) tail,
              ),
            ),
            λ a lt. ground (arith, w a),
          )
      | inr whole ↦
          let w = take_block_whole h size b.addr low high le' (ground arith) in
          let first = w b.addr in
          let tail =
            Chain-frame {g = (take_block size b.addr h).1} (h b.addr).next bs (end_of b) hi
              (λ a ge. ground (arith, w a)) placed.1 rest in
          rw whole (
            returned,
            (
              refl,
              ground (arith, first),
              ground (arith, first),
              Chain-subst _ bs (ground (arith, first)) tail,
            ),
            λ a lt. ground (arith, w a),
          )
    ]

search-step :
    (h : Headers) {lo p : ℕ} (b : Block) (o : Option (ℕ × List Block)) (s : Search)
    → lo ≤ b.addr
    → p ≡ b.addr
    → (h b.addr).size ≡ b.size
    → (h b.addr).is_free ≡ b.free
    → Refines h (end_of b) (h b.addr).next o s
    → Refines h lo p (Option.map (keep b) o) s
search-step h b none missing low at sized free r = tt
search-step h b (some (q, bs)) (found p' g) low at sized free (e, chain, same) =
    let same_b = same b.addr (omega arith) in
    (
      e,
      (at, ground arith, ground arith, Chain-subst g bs (ground arith) chain),
      λ a lt. same a (omega arith),
    )
search-step h b none (found p' g) low at sized free r = r
search-step h b none search_out_of_fuel low at sized free r = r
search-step h b (some o) missing low at sized free r = r
search-step h b (some o) search_out_of_fuel low at sized free r = r

-- With more fuel than blocks, and blocks that lie apart within the address space, the search in
-- memory finds the pointer that the search of the list finds, leaves the blocks of the list in the
-- chain, and writes nothing below the heap; or both find nothing.
pub search-Refines :
    (n : ℕ) (h : Headers) (size p : ℕ) (bs : List Block) (lo hi : ℕ)
    → length bs < n
    → Fits lo hi
    → Placed lo bs hi
    → Chain h p bs
    → Refines h lo p (fit size bs) (search n size p h)
unfolding search fit
search-Refines zero h size p bs lo hi fuel fits placed chain = absurd (omega arith)
search-Refines (suc n) h size p [] lo hi fuel fits placed chain = rw chain tt
search-Refines (suc n) h size p (b ∷ bs) lo hi fuel fits placed (at, sized, free, rest) =
    let nonnull : (b.addr == null) ≡ false = ground arith in
    elim (Bool-cases (b.free && leb size b.size)) [
      | inl hit ↦
          rw (at, nonnull, sized, free, hit)
            (take_block-Refines h size b bs lo hi fits (ground arith) placed
              (refl, sized, free, rest))
      | inr miss ↦
          rw (at, nonnull, sized, free, miss)
            (search-step h b (fit size bs) (search n size (h b.addr).next h) placed.0 refl sized
              free
              (search-Refines n h size (h b.addr).next bs (end_of b) hi (omega arith) (omega arith)
                placed.1 rest))
    ]
