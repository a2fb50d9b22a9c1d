-- ===== src/Heap/Coalesce.antt =====
-- The coalescing loop and the walk to the last block in memory, against the list of blocks.
use icosaos.Prelude.{
  ℕ, zero, suc, ◌+◌, ◌≤◌, ◌<◌, ◌≡◌, refl, inl, inr, false, ◌&&◌, List, [], ◌∷◌, ◌++◌, arith,
  if◌then◌else◌, Bool-cases, ◌==◌, ◌∙◌, add32, Run, ok, out_of_fuel, ◌>>=◌,
}
use icosaos.Heap.{header_size, null, Headers, join, coalesce, link_last, append_block}
use icosaos.Heap.Blocks.{Block, end_of, Placed, merge_from, merge, Placed-lower, Placed-le}
use icosaos.Heap.Chain.{Chain, Chain-frame, Fits, SameBelow, length, Chain-subst}

-- The run ended, and its headers hold the blocks from `p` on; nothing below `lo` was written.
abbrev pub Holds : Headers → ℕ → ℕ → List Block → Run Headers → Type 0
Holds h lo p bs (ok g) = Chain g p bs × SameBelow lo h g
Holds h lo p bs out_of_fuel = ⊥

Holds-cons :
    (h : Headers) {lo p : ℕ} (b : Block) (bs : List Block) (r : Run Headers)
    → lo ≤ b.addr
    → p ≡ b.addr
    → (h b.addr).size ≡ b.size
    → (h b.addr).is_free ≡ b.free
    → Holds h (end_of b) (h b.addr).next bs r
    → Holds h lo p (b ∷ bs) r
Holds-cons h b bs (ok g) low at sized free (chain, same) =
    let same_b = same b.addr (omega arith) in
    (
      (at, ground arith, ground arith, Chain-subst g bs (ground arith) chain),
      λ a lt. same a (omega arith),
    )
Holds-cons h b bs out_of_fuel low at sized free r = r

-- The block that `join` makes.
abbrev joined : Block → Block → Block
joined b c = record b { size = b.size + (header_size + c.size) }

module _ (h : Headers) (b c : Block) (cs : List Block) (lo hi : ℕ) (fits : Fits lo hi)
    (placed : Placed lo (b ∷ c ∷ cs) hi) (chain : Chain h b.addr (b ∷ c ∷ cs)) where
  join-at :
      (a : ℕ)
      → join b.addr h a ≡ (
          if b.addr == a
          then record { size = (joined b c).size; is_free = b.free; next = (h c.addr).next }
          else h a)
  unfolding join
  join-at a =
      let below = Placed-le cs (end_of c) hi placed.1.1 in
      let next = chain.3.0 in
      let e : add32 (h b.addr).size (add32 header_size (h (h b.addr).next).size)
          ≡ (joined b c).size =
        rw next (ground (arith, chain)) in
      rw (e, next) (ground (arith, chain))

  join-Chain : Chain (join b.addr h) b.addr (joined b c ∷ cs)
  join-Chain =
      let first = join-at b.addr in
      (
        refl,
        ground (arith, first),
        ground (arith, first),
        Chain-subst _ cs (ground (arith, first)) (
            Chain-frame {g = join b.addr h} (h c.addr).next cs (end_of c) hi
              (λ a ge. ground (arith, join-at a)) placed.1.1 chain.3.3),
      )

Holds-after :
    {h g : Headers} {lo : ℕ} (p : ℕ) (bs : List Block) (r : Run Headers)
    → SameBelow lo h g
    → Holds g lo p bs r
    → Holds h lo p bs r
Holds-after p bs (ok f) same (chain, same') = (chain, λ a lt. same' a lt ∙ same a lt)
Holds-after p bs out_of_fuel same r = r

-- The loop from a first block on.
coalesce-merge_from :
    (n : ℕ) (h : Headers) (p : ℕ) (b : Block) (bs : List Block) (lo hi : ℕ)
    → length (b ∷ bs) < n
    → Fits lo hi
    → Placed lo (b ∷ bs) hi
    → Chain h p (b ∷ bs)
    → Holds h lo p (merge_from b bs) (coalesce n p h)
unfolding coalesce merge_from
coalesce-merge_from zero h p b bs lo hi fuel fits placed chain = absurd (omega arith)
coalesce-merge_from (suc n) h p b [] lo hi fuel fits placed (at, sized, free, rest) =
    let nonnull : (b.addr == null) ≡ false = ground arith in
    rw (at, nonnull, rest) ((refl, sized, free, rest), λ a lt. refl)
coalesce-merge_from (suc n) h p b (c ∷ cs) lo hi fuel fits placed (at, sized, free, rest) =
    let nonnull : (b.addr == null) ≡ false = ground arith in
    let nonnull' : (c.addr == null) ≡ false = ground arith in
    elim (Bool-cases (b.free && c.free)) [
      | inl both ↦
          rw (at, nonnull, rest.0, nonnull', free, rest.2, both)
            (Holds-after b.addr (merge_from (joined b c) cs) _
              (λ a lt.
                ground (arith, join-at h b c cs lo hi fits placed (refl, sized, free, rest) a))
              (coalesce-merge_from n (join b.addr h) b.addr (joined b c) cs lo hi (omega arith) fits
                (placed.0, Placed-lower cs (end_of c) _ hi (omega arith) placed.1.1)
                (join-Chain h b c cs lo hi fits placed (refl, sized, free, rest))))
      | inr one ↦
          rw (at, nonnull, rest.0, nonnull', free, rest.2, one)
            (Holds-cons h b (merge_from c cs) (coalesce n c.addr h) placed.0 refl sized free (
              rw rest.0 (
                coalesce-merge_from n h c.addr c cs (end_of b) hi (omega arith) (omega arith)
                  placed.1 (refl, rest.1, rest.2, rest.3))))
    ]

-- With more fuel than blocks, and blocks that lie apart within the address space, the coalescing loop
-- ends, with headers that hold the list in which free neighbours are merged, and writes nothing
-- below the heap.
pub coalesce-merge :
    (n : ℕ) (h : Headers) (p : ℕ) (bs : List Block) (lo hi : ℕ)
    → length bs < n
    → Fits lo hi
    → Placed lo bs hi
    → Chain h p bs
    → Holds h lo p (merge bs) (coalesce n p h)
unfolding merge coalesce
coalesce-merge zero h p bs lo hi fuel fits placed chain = absurd (omega arith)
coalesce-merge (suc n) h p [] lo hi fuel fits placed chain = rw chain (refl, λ a lt. refl)
coalesce-merge (suc n) h p (b ∷ bs) lo hi fuel fits placed chain =
    coalesce-merge_from (suc n) h p b bs lo hi fuel fits placed chain

-- The walk to the last block hangs a new block behind it.
pub link_last-append :
    (n : ℕ) (h : Headers) (p : ℕ) (b : Block) (bs : List Block) (new : Block) (lo : ℕ)
    → length bs < n
    → header_size + 4 ≤ lo
    → Placed lo (b ∷ bs) new.addr
    → Chain h p (b ∷ bs)
    → Chain h new.addr (new ∷ [])
    → Holds h lo p (b ∷ bs ++ new ∷ []) (link_last n new.addr p h)
unfolding link_last
link_last-append zero h p b bs new lo fuel low placed chain fresh = absurd (omega arith)
link_last-append (suc n) h p b [] new lo fuel low placed (at, sized, free, rest) fresh =
    rw (at, rest)
      (
        (
          refl,
          ground arith,
          ground arith,
          (ground arith, ground arith, ground arith, ground arith),
        ),
        λ a lt. ground arith,
      )
link_last-append (suc n) h p b (c ∷ cs) new lo fuel low placed (at, sized, free, rest) fresh =
    let nonnull : (c.addr == null) ≡ false = ground arith in
    rw (at, rest.0, nonnull)
      (Holds-cons h b (c ∷ cs ++ new ∷ []) _ placed.0 refl sized free (
        rw rest.0 (
          link_last-append n h c.addr c cs new (end_of b) (omega arith) (omega arith) placed.1
            (refl, rest.1, rest.2, rest.3) fresh)))

-- The chain from the first block after a block was appended.
abbrev pub Attached : List Block → Run (ℕ × Headers) → Type 0
Attached bs (ok (p, g)) = Chain g p bs
Attached bs out_of_fuel = ⊥

pub append_block-Attached :
    (n : ℕ) (h : Headers) (p : ℕ) (bs : List Block) (new : Block) (lo : ℕ)
    → length bs < n
    → header_size + 4 ≤ lo
    → Placed lo bs new.addr
    → Chain h p bs
    → Chain h new.addr (new ∷ [])
    → Attached (bs ++ new ∷ []) (append_block n new.addr p h)
unfolding append_block
append_block-Attached n h p [] new lo fuel low placed chain fresh = rw chain fresh
append_block-Attached n h p (b ∷ bs) new lo fuel low placed chain fresh =
    let nonnull : (p == null) ≡ false = ground arith in
    rw nonnull (front _ (link_last-append n h p b bs new lo (omega arith) low placed chain fresh))
  where
    front :
        (r : Run Headers)
        → Holds h lo p (b ∷ bs ++ new ∷ []) r
        → Attached (b ∷ bs ++ new ∷ []) (r >>= λ linked. ok (p, linked))
    front (ok g) held = held.0
    front out_of_fuel held = held
