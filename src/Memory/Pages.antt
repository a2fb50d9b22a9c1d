-- ===== src/Memory/Pages.antt =====
-- `alloc_page` and `free_page` on the set of used pages.
use icosaos.Prelude.{
  ℕ, ◌+◌, ◌*◌, ◌/◌, ◌%◌, ◌<◌, ◌≡◌, refl, ap, fun_ext, ◌≢◌, ◌⊎◌, inl, inr, true, false, arith, ◌==◌,
  ◌&&◌, ◌||◌, leb, ltb, update, u32, if◌then◌else◌, Bool-cases,
}
use icosaos.Memory.{Allocator, null, page_size, is_clear, set_bit, claim, alloc_page, free_page}
use icosaos.Memory.Bytes.{
  is_clear-set_bit, is_clear-clear_bit, set_bit-lt, clear_bit-lt, clear_bit-set_bit,
}
use icosaos.Memory.Spec.{used, IsValid, managed}
use icosaos.Memory.Alloc.{Scanned, scan_bytes-Scanned}

-- The page `p` taken from `a`: its address returned, the page marked, the sizes as they were.
pub record Takes (a : Allocator) (p : ℕ) (r : ℕ × Allocator) : Type 0 where
  pub address : r.0 ≡ p * page_size
  pub not_null : r.0 ≢ null
  pub marks : (q : ℕ) → used r.1 q ≡ ((p == q) || used a q)
  pub pages : r.1.total_pages ≡ a.total_pages
  pub size : r.1.bitmap_size_bytes ≡ a.bitmap_size_bytes

abbrev marked : ℕ → Allocator → Allocator
marked p a = record a { bitmap = update a.bitmap (p / 8) (set_bit (a.bitmap (p / 8)) (p % 8)) }

same_page : (p q : ℕ) → (p == q) ≡ ((p / 8 == q / 8) && (p % 8 == q % 8))
same_page p q = ground arith

used-marked :
    (a : Allocator) (p q : ℕ)
    → a.bitmap (p / 8) < 256
    → used (marked p a) q ≡ ((p == q) || used a q)
used-marked a p q byte = ground (
  arith,
  same_page p q,
  is_clear-set_bit (a.bitmap (p / 8)) (p % 8) (q % 8) byte (omega arith) (omega arith),
)

module _ {a : Allocator} (v : IsValid a) (p : ℕ) (lt : p < managed a)
    (free : used a p ≡ false) where
  claim-eq : claim (p / 8) (p % 8) a ≡ (p * page_size, marked p a)
  unfolding claim
  claim-eq =
      let s = v.sized in
      let t = v.addressable in
      let e : u32 (p / 8 * 8 + p % 8) ≡ p = omega arith in
      let f : leb a.total_pages p ≡ false = ground arith in
      let g : u32 (p * page_size) ≡ p * page_size = omega arith in rw (e, f, g)

  claim-IsValid : IsValid (claim (p / 8) (p % 8) a).1
  claim-IsValid = rw claim-eq (record {
    bytes = λ i. ground (arith, v.bytes i, set_bit-lt (a.bitmap (p / 8)) (p % 8));
    sized = v.sized;
    addressable = v.addressable;
    page_zero = ground (arith, used-marked a p 0 (v.bytes (p / 8)), v.page_zero);
  })

  free_page-claim : free_page (claim (p / 8) (p % 8) a).0 (claim (p / 8) (p % 8) a).1 ≡ a
  unfolding free_page
  free_page-claim =
      let s = v.sized in
      let f : leb a.total_pages p ≡ false = ground arith in
      let m : p * page_size % page_size ≡ 0 = omega arith in
      let d : p * page_size / page_size ≡ p = omega arith in
      let c : is_clear (a.bitmap (p / 8)) (p % 8) ≡ true = ground arith in
      rw (claim-eq, m, d, f)
        (ap (λ bitmap. record a { bitmap = bitmap })
          (fun_ext λ i.
            ground
              (arith, clear_bit-set_bit (a.bitmap (p / 8)) (p % 8) (v.bytes _) (omega arith) c)))

  claim-Takes : Takes a p (claim (p / 8) (p % 8) a)
  claim-Takes = rw claim-eq (record {
    address = refl;
    not_null = λ e. let z : 0 ≡ p = omega arith in cc (v.page_zero, free, ap (used a) z);
    marks = λ q. used-marked a p q (v.bytes (p / 8));
    pages = refl;
    size = refl;
  })

-- On a valid allocator `alloc_page` returns the address of the lowest free page of the bitmap,
-- which is not NULL, marks that page and no other, and keeps the allocator valid; if every page of
-- the bitmap is used it returns NULL and changes nothing.
pub alloc_page-lowest :
    (a : Allocator)
    → IsValid a
    → (alloc_page a ≡ (null, a)) × ((q : ℕ) → q < managed a → used a q ≡ true)
      ⊎ ((p : ℕ) × (p < managed a)
          × (used a p ≡ false)
          × Takes a p (alloc_page a)
          × ((q : ℕ) → q < p → used a q ≡ true)
          × IsValid (alloc_page a).1)
unfolding alloc_page
alloc_page-lowest a v = report (scan_bytes-Scanned a.bitmap_size_bytes 0 a)
  where
    report :
        {r : ℕ × Allocator}
        → Scanned a (0 * 8) ((0 + a.bitmap_size_bytes) * 8) r
        → (r ≡ (null, a)) × ((q : ℕ) → q < managed a → used a q ≡ true)
          ⊎ ((p : ℕ) × (p < managed a)
              × (used a p ≡ false)
              × Takes a p r
              × ((q : ℕ) → q < p → used a q ≡ true)
              × IsValid r.1)
    report (inl (eq, all)) = inl (eq, λ q h. all q (omega arith) (omega arith))
    report (inr (p, ge, lt, free, eq, lower)) =
        let below : p < managed a = omega arith in
        inr (
          p,
          below,
          free,
          rw eq (claim-Takes v p below free),
          λ q h. lower q (omega arith) h,
          rw eq (claim-IsValid v p below free),
        )

-- On a valid allocator, freeing the page that `alloc_page` returned gives back the allocator as it
-- was before.
pub free_page-alloc_page :
    (a : Allocator)
    → IsValid a
    → (alloc_page a).0 ≢ null
    → free_page (alloc_page a).0 (alloc_page a).1 ≡ a
unfolding alloc_page
free_page-alloc_page a v got = undo (scan_bytes-Scanned a.bitmap_size_bytes 0 a) got
  where
    undo :
        {r : ℕ × Allocator}
        → Scanned a (0 * 8) ((0 + a.bitmap_size_bytes) * 8) r
        → r.0 ≢ null
        → free_page r.0 r.1 ≡ a
    undo (inl (eq, all)) ne = absurd (ne (ap (λ r. r.0) eq))
    undo (inr (p, ge, lt, free, eq, lower)) ne = rw eq (free_page-claim v p (omega arith) free)

-- On a valid allocator `free_page` makes the page of an aligned address below the total free and changes no other page;
-- at any other address it changes nothing.
pub free_page-used :
    (a : Allocator) (address q : ℕ)
    → IsValid a
    → used (free_page address a) q ≡ (
        if (address % page_size == 0)
          && ltb (address / page_size) a.total_pages
          && (address / page_size == q)
        then false
        else used a q)
unfolding free_page
free_page-used a address q v = ground (
  arith,
  same_page (address / page_size) q,
  v.bytes (address / page_size / 8),
  is_clear-clear_bit (a.bitmap (address / page_size / 8)) (address / page_size % 8) (q % 8),
)

-- Freeing any address but NULL keeps a valid allocator valid.
pub free_page-IsValid :
    (a : Allocator) (address : ℕ) → address ≢ null → IsValid a → IsValid (free_page address a)
unfolding free_page
free_page-IsValid a address ne v = record {
  bytes = λ i. ground (
    arith,
    v.bytes i,
    clear_bit-lt (a.bitmap (address / page_size / 8)) (address / page_size % 8),
  );
  sized = ground (arith, v.sized);
  addressable = ground (arith, v.addressable);
  page_zero = ground (arith, free_page-used a address 0 v, v.page_zero);
}

-- On a valid allocator with some page, `free_page(NULL)` frees page 0, and the allocation that follows
-- returns NULL, since the lowest free page is page 0.
pub alloc_page-free_page-null :
    (a : Allocator)
    → IsValid a
    → 0 < managed a
    → (used (free_page null a) 0 ≡ false) × ((alloc_page (free_page null a)).0 ≡ null)
unfolding alloc_page claim
alloc_page-free_page-null a v pos =
    let freed : used (free_page null a) 0 ≡ false =
      ground (arith, free_page-used a 0 0 v, v.sized) in
    (freed, first freed (scan_bytes-Scanned _ 0 (free_page null a)))
  where
    first :
        {hi : ℕ} {b : Allocator} {r : ℕ × Allocator}
        → used b 0 ≡ false
        → Scanned b (0 * 8) hi r
        → r.0 ≡ null
    first clear (inl (eq, all)) = ap (λ r. r.0) eq
    first {b} clear (inr (p, ge, lt, free, eq, lower)) = elim (Bool-cases (p == 0)) [
      | inl e ↦ let z : p ≡ 0 = ground arith in rw (eq, z) (ground arith)
      | inr ne ↦ cc (lower 0 (omega arith) (ground arith), clear)
    ]
