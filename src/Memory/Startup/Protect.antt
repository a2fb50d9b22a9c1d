-- ===== src/Memory/Startup/Protect.antt =====
-- The pages that the start-up keeps from being handed out.
use icosaos.Prelude.{
  ℕ, zero, suc, ◌+◌, ◌-◌, ◌*◌, ◌/◌, ◌%◌, ◌≤◌, ◌<◌, ◌^◌, ◌≡◌, inl, inr, refl, ◌∙◌, arith, Bool,
  false, not, ◌&&◌, ◌||◌, ◌==◌, ltb, leb, Bool-cases, u32, ok,
}
use icosaos.Memory.{is_clear, set_bit}
use icosaos.Memory.Bytes.{is_clear-set_bit, is_clear-clear_bit, set_bit-lt, clear_bit-lt}
use icosaos.Memory.Startup.{
  mark_used, mark_free, free_chunk, add64, protect, protect_end_page, protect_kernel,
}

-- Is a page marked used in the bitmap?
abbrev pub used_in : (ℕ → ℕ) → ℕ → Bool
used_in bitmap p = not (is_clear (bitmap (p / 8)) (p % 8))

abbrev pub Bytes : (ℕ → ℕ) → Type 0
Bytes bitmap = (i : ℕ) → bitmap i < 256

mark_used-Bytes : (page : ℕ) (bitmap : ℕ → ℕ) → Bytes bitmap → Bytes (mark_used page bitmap)
unfolding mark_used
mark_used-Bytes page bitmap h i = ground (arith, h i, set_bit-lt (bitmap (page / 8)) (page % 8))

-- Marking a page marks it and no other.
mark_used-used_in :
    (page p : ℕ) (bitmap : ℕ → ℕ)
    → Bytes bitmap
    → used_in (mark_used page bitmap) p ≡ ((page == p) || used_in bitmap p)
unfolding mark_used
mark_used-used_in page p bitmap h =
    let set =
      is_clear-set_bit (bitmap (page / 8)) (page % 8) (p % 8) (h (page / 8)) (omega arith)
        (omega arith) in
    elim (Bool-cases (page / 8 == p / 8)) [
      | inl same ↦ let e : page / 8 ≡ p / 8 = ground arith in rw (← e) (ground (arith, set))
      | inr other ↦ ground arith
    ]

one_more :
    (page p n : ℕ) (u : Bool)
    → (leb (page + 1) p && ltb p (page + 1 + n) || (page == p || u))
      ≡ (leb page p && ltb p (page + suc n) || u)
one_more page p n u = ground arith

protect-used_in :
    (n page p : ℕ) (bitmap : ℕ → ℕ)
    → Bytes bitmap
    → used_in (protect n page bitmap) p ≡ ((leb page p && ltb p (page + n)) || used_in bitmap p)
unfolding protect
protect-used_in zero page p bitmap h = ground arith
protect-used_in (suc n) page p bitmap h =
    protect-used_in n (page + 1) p (mark_used page bitmap) (mark_used-Bytes page bitmap h)
    ∙ rw (mark_used-used_in page p bitmap h) (one_more page p n (used_in bitmap p))

protect-Bytes : (n page : ℕ) (bitmap : ℕ → ℕ) → Bytes bitmap → Bytes (protect n page bitmap)
unfolding protect
protect-Bytes zero page bitmap h = h
protect-Bytes (suc n) page bitmap h =
    protect-Bytes n (page + 1) (mark_used page bitmap) (mark_used-Bytes page bitmap h)

in_kernel :
    (last p : ℕ) (u : Bool)
    → ((0 == p) || (leb 256 p && ltb p (256 + (last - 256)) || u))
      ≡ ((p == 0) || (leb 256 p && ltb p last) || u)
in_kernel last p u = ground arith

-- The last phase of `init_bitmap_allocator` marks page 0 and the pages from the first megabyte up to
-- the end of the bitmap used, and leaves every other page as it was.
pub protect_kernel-used_in :
    (kernel_end size p : ℕ) (bitmap : ℕ → ℕ)
    → Bytes bitmap
    → Bytes (protect_kernel kernel_end size bitmap)
      × (used_in (protect_kernel kernel_end size bitmap) p ≡ (
          (p == 0) || (leb 256 p && ltb p (protect_end_page kernel_end size)) || used_in bitmap p))
unfolding protect_kernel mark_used set_bit
protect_kernel-used_in kernel_end size p bitmap h =
    let n = protect_end_page kernel_end size - 256 in
    let b = protect-Bytes n 256 bitmap h in
    (
      mark_used-Bytes 0 (protect n 256 bitmap) b,
      mark_used-used_in 0 p (protect n 256 bitmap) b
          ∙ rw (protect-used_in n 256 p bitmap h)
              (in_kernel (protect_end_page kernel_end size) p (used_in bitmap p)),
    )

mark_free-Bytes : (page : ℕ) (bitmap : ℕ → ℕ) → Bytes bitmap → Bytes (mark_free page bitmap)
unfolding mark_free
mark_free-Bytes page bitmap h i = ground (arith, h i, clear_bit-lt (bitmap (page / 8)) (page % 8))

mark_free-used_in :
    (page p : ℕ) (bitmap : ℕ → ℕ)
    → Bytes bitmap
    → used_in (mark_free page bitmap) p ≡ (not (page == p) && used_in bitmap p)
unfolding mark_free
mark_free-used_in page p bitmap h =
    let cleared =
      is_clear-clear_bit (bitmap (page / 8)) (page % 8) (p % 8) (h (page / 8)) (omega arith)
        (omega arith) in
    elim (Bool-cases (page / 8 == p / 8)) [
      | inl same ↦ let e : page / 8 ≡ p / 8 = ground arith in rw (← e) (ground (arith, cleared))
      | inr other ↦ ground arith
    ]

one_chunk :
    (addr end p : ℕ) (u : Bool)
    → addr < end
    → (not (leb ((addr + 4096) / 4096) p && ltb (p * 4096 + (addr + 4096) % 4096) end)
        && (not (addr / 4096 == p) && u))
      ≡ (not (leb (addr / 4096) p && ltb (p * 4096 + addr % 4096) end) && u)
one_chunk addr end p u h = ground arith

no_chunk :
    (addr end p : ℕ) (u : Bool)
    → end ≤ addr
    → u ≡ (not (leb (addr / 4096) p && ltb (p * 4096 + addr % 4096) end) && u)
no_chunk addr end p u h = ground arith

-- The bitmap after the pages of a chunk from `addr` up to `end` were freed.
pub record Frees (addr end : ℕ) (bitmap bitmap' : ℕ → ℕ) : Type 0 where
  pub all : Bytes bitmap'
  pub pages :
      (p : ℕ)
      → used_in bitmap' p
        ≡ (not (leb (addr / 4096) p && ltb (p * 4096 + addr % 4096) end) && used_in bitmap p)

-- Up to 4 GiB the loop over an available chunk ends, given a round for each page and one more. It
-- frees exactly the pages from that of the address on which, moved by the address's offset in its
-- page, start before the end of the chunk; every other page is as it was.
pub free_chunk-Frees :
    (fuel addr end : ℕ) (bitmap : ℕ → ℕ)
    → Bytes bitmap
    → end ≤ 2 ^ 32
    → end ≤ addr + fuel * 4096
    → (bitmap' : ℕ → ℕ) × (free_chunk (suc fuel) addr end bitmap ≡ ok bitmap')
      × Frees addr end bitmap bitmap'
unfolding free_chunk
free_chunk-Frees zero addr end bitmap h low enough =
    let done : ltb addr end ≡ false = ground arith in
    rw done (
      bitmap,
      refl,
      record { all = h; pages = λ p. no_chunk addr end p (used_in bitmap p) (omega arith) },
    )
free_chunk-Frees (suc fuel) addr end bitmap h low enough = elim (Bool-cases (ltb addr end)) [
  | inl more ↦
      let next : add64 addr 4096 ≡ addr + 4096 = ground arith in
      let page : u32 (addr / 4096) ≡ addr / 4096 = ground arith in
      let (bitmap', e, rest) =
        free_chunk-Frees fuel (addr + 4096) end (mark_free (addr / 4096) bitmap)
          (mark_free-Bytes (addr / 4096) bitmap h) low (omega arith) in
      rw (more, next, page)
        (
          bitmap',
          e,
          record {
            all = rest.all;
            pages = λ p.
                rest.pages p
                ∙ rw (mark_free-used_in (addr / 4096) p bitmap h)
                    (one_chunk addr end p (used_in bitmap p) (ground arith));
          },
        )
  | inr done ↦ rw done (
    bitmap,
    refl,
    record { all = h; pages = λ p. no_chunk addr end p (used_in bitmap p) (ground arith) },
  )
]
