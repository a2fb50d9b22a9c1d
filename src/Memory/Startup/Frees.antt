-- ===== src/Memory/Startup/Frees.antt =====
-- The phases of `init_bitmap_allocator` over the entries of the memory map.
use icosaos.Prelude.{
  ℕ, zero, suc, ◌+◌, ◌*◌, ◌/◌, ◌%◌, ◌≤◌, ◌<◌, ◌^◌, ◌≡◌, ◌∙◌, refl, inl, inr, arith, Bool, true,
  false, not, ◌&&◌, ◌||◌, ◌==◌, ltb, leb, Bool-cases, List, [], ◌∷◌, update, add32, every, every-lt,
  u32, if◌then◌else◌, ok,
}
use icosaos.Memory.{Allocator, is_clear}
use icosaos.Memory.Spec.{IsValid, used, managed}
use icosaos.Memory.Startup.{
  entry_addr, entry_len, entry_type, add64, raise_max, free_entry, reserve_all, protect_end_page,
  protect_kernel, init_bitmap_allocator,
}
use icosaos.Memory.Startup.Protect.{used_in, Bytes, free_chunk-Frees, protect_kernel-used_in}
use icosaos.Memory.Startup.Walk.{Tags, entries, run_all, each_tag-run_all}

-- Is an entry one of memory that is available?
abbrev pub is_available : (ℕ → ℕ) → ℕ → Bool
is_available bytes e = entry_type e bytes == 1

abbrev pub end_of : (ℕ → ℕ) → ℕ → ℕ
end_of bytes e = entry_addr e bytes + entry_len e bytes

-- What is available ends at 4 GiB or before.
abbrev pub Low : (ℕ → ℕ) → List ℕ → Type 0
Low bytes [] = Unit {0}
Low bytes (e ∷ es) = (is_available bytes e ≡ true → end_of bytes e ≤ 2 ^ 32) × Low bytes es

-- The highest end of what is available, from `m` on.
abbrev pub highest : (ℕ → ℕ) → List ℕ → ℕ → ℕ
highest bytes [] m = m
highest bytes (e ∷ es) m =
    highest bytes es (if is_available bytes e && ltb m (end_of bytes e) then end_of bytes e else m)

-- Does a chunk that is available have a page, counted from the chunk's start?
abbrev pub is_covered : (ℕ → ℕ) → List ℕ → ℕ → Bool
is_covered bytes [] p = false
is_covered bytes (e ∷ es) p =
    (is_available bytes e
      && (leb (entry_addr e bytes / 4096) p
          && ltb (p * 4096 + entry_addr e bytes % 4096) (end_of bytes e)))
    || is_covered bytes es p

raise_max-highest :
    (bytes : ℕ → ℕ) (es : List ℕ) (m : ℕ)
    → Low bytes es
    → m ≤ 2 ^ 32
    → (run_all (raise_max bytes) es m ≡ ok (highest bytes es m)) × (highest bytes es m ≤ 2 ^ 32)
unfolding raise_max
raise_max-highest bytes [] m low h = (refl, h)
raise_max-highest bytes (e ∷ es) m (first, low) h = elim (Bool-cases (is_available bytes e)) [
  | inr other ↦ rw other (raise_max-highest bytes es m low h)
  | inl free ↦
      let fits = first free in
      let end : add64 (entry_addr e bytes) (entry_len e bytes) ≡ end_of bytes e = omega arith in
      rw (free, end)
        (raise_max-highest bytes es (if ltb m (end_of bytes e) then end_of bytes e else m) low
          (ground arith))
]

free_entry-Frees :
    (fuel : ℕ) (bytes : ℕ → ℕ) (es : List ℕ) (bitmap : ℕ → ℕ)
    → Low bytes es
    → Bytes bitmap
    → 2 ^ 20 ≤ fuel
    → (bitmap' : ℕ → ℕ) × (run_all (free_entry (suc fuel) bytes) es bitmap ≡ ok bitmap')
      × Bytes bitmap'
      × ((p : ℕ) → used_in bitmap' p ≡ (not (is_covered bytes es p) && used_in bitmap p))
unfolding free_entry
free_entry-Frees fuel bytes [] bitmap low all h = (bitmap, refl, all, λ p. refl)
free_entry-Frees fuel bytes (e ∷ es) bitmap (first, low) all h =
    elim (Bool-cases (is_available bytes e)) [
      | inr other ↦ rw other (free_entry-Frees fuel bytes es bitmap low all h)
      | inl free ↦
          let fits = first free in
          let end : add64 (entry_addr e bytes) (entry_len e bytes) ≡ end_of bytes e = omega arith in
          let (chunk, done, frees) =
            free_chunk-Frees fuel (entry_addr e bytes) (end_of bytes e) bitmap all fits
              (omega arith) in
          let (rest, ended, all', pages) = free_entry-Frees fuel bytes es chunk low frees.all h in
          rw (free, end, done) (rest, ended, all', λ p. ground (arith, pages p, frees.pages p))
    ]

full_table : every 8 (λ k. not (is_clear 0xFF k)) ≡ true
unfolding every is_clear
full_table = refl

reserve_all-used_in :
    (n i : ℕ) (bitmap : ℕ → ℕ)
    → Bytes bitmap
    → Bytes (reserve_all n i bitmap)
      × ((p : ℕ)
          → used_in (reserve_all n i bitmap) p
            ≡ ((leb i (p / 8) && ltb (p / 8) (i + n)) || used_in bitmap p))
unfolding reserve_all
reserve_all-used_in zero i bitmap all = (all, λ p. ground arith)
reserve_all-used_in (suc n) i bitmap all =
    let (all', pages) =
      reserve_all-used_in n (i + 1) (update bitmap i 0xFF) (λ a. ground (arith, all a)) in
    (
      all',
      λ p.
          let full : not (is_clear 0xFF (p % 8)) ≡ true =
            every-lt 8 (λ k. not (is_clear 0xFF k)) full_table (p % 8) (omega arith) in
          elim (Bool-cases (i == p / 8)) [
            | inl here ↦ ground (arith, pages p, full)
            | inr other ↦ ground (arith, pages p)
          ],
    )

-- The frames that the start leaves free: those of available chunks, without page 0, the kernel and the
-- bitmap.
pub record Starts (bytes : ℕ → ℕ) (es : List ℕ) (kernel_end : ℕ) (a : Allocator) : Type 0 where
  pub valid : IsValid a
  pub total : a.total_pages ≡ highest bytes es 0 / 4096
  pub pages :
      (p : ℕ)
      → p < managed a
      → used a p ≡ (
          (p == 0)
          || (leb 256 p && ltb p (protect_end_page kernel_end a.bitmap_size_bytes)
              || not (is_covered bytes es p)))

-- Where `n` tags stand behind the head of the boot information, what is available ends at 4 GiB or
-- before and the bitmap's memory holds bytes, `init_bitmap_allocator` ends, given more rounds than tags
-- and than 2 ^ 20. The allocator is well formed, it counts the pages below the highest available
-- address, and of those of its bitmap exactly these are used: page 0, those from the first megabyte to
-- the end of the bitmap, and those no available chunk has.
pub init_bitmap_allocator-Starts :
    (n fuel mbi_addr kernel_end : ℕ) (bytes bitmap : ℕ → ℕ)
    → Tags bytes n (add32 mbi_addr 8)
    → Low bytes (entries bytes n (add32 mbi_addr 8))
    → Bytes bitmap
    → n < fuel
    → 2 ^ 20 < fuel
    → (a : Allocator) × (init_bitmap_allocator fuel mbi_addr kernel_end bytes bitmap ≡ ok a)
      × Starts bytes (entries bytes n (add32 mbi_addr 8)) kernel_end a
unfolding init_bitmap_allocator
init_bitmap_allocator-Starts n zero mbi_addr kernel_end bytes bitmap tags low all h k =
    absurd (omega arith)
init_bitmap_allocator-Starts n (suc fuel) mbi_addr kernel_end bytes bitmap tags low all h k =
    let first = add32 mbi_addr 8 in
    let es = entries bytes n first in
    let (found, top) = raise_max-highest bytes es 0 low (omega arith) in
    let max_address = highest bytes es 0 in
    let walk = each_tag-run_all (raise_max bytes) bytes n (suc fuel) first 0 tags h ∙ found in
    let total : u32 (max_address / 4096) ≡ max_address / 4096 = omega arith in
    let size = max_address / 4096 / 8 in
    let (all1, full) = reserve_all-used_in size 0 bitmap all in
    let reserved = reserve_all size 0 bitmap in
    let (freed, ran, all2, left) = free_entry-Frees fuel bytes es reserved low all1 (omega arith) in
    let walk2 =
      each_tag-run_all (free_entry (suc fuel) bytes) bytes n (suc fuel) first reserved tags h
      ∙ ran in
    let kept = λ (p : ℕ). protect_kernel-used_in kernel_end size p freed all2 in
    let kept0 = kept 0 in
    let a : Allocator = record {
      bitmap = protect_kernel kernel_end size freed;
      total_pages = max_address / 4096;
      bitmap_size_bytes = size;
    } in
    (
      a,
      rw (walk, total, walk2) refl,
      record {
        valid = record {
          bytes = kept0.0;
          sized = refl;
          addressable = omega arith;
          page_zero = ground (arith, kept0.1);
        };
        total = refl;
        pages = λ p inside. (kept p).1 ∙ ground (arith, left p, full p);
      },
    )
