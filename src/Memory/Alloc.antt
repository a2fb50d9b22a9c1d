-- ===== src/Memory/Alloc.antt =====
-- The loops of `alloc_page`: they find the first page that is not used.
use icosaos.Prelude.{
  ℕ, zero, suc, ◌+◌, ◌*◌, ◌/◌, ◌%◌, ◌≤◌, ◌<◌, ◌≡◌, refl, ◌⊎◌, inl, inr, true, false, Option, none,
  some, arith, ◌==◌, leb, Bool-cases,
}
use icosaos.Memory.{Allocator, null, is_clear, claim, scan_bits, scan_bytes}
use icosaos.Memory.Bytes.{is_clear-full}
use icosaos.Memory.Spec.{used}

-- The inner loop: a call that returns stopped at the first clear bit.
abbrev Stops : ℕ → ℕ → ℕ → Allocator → Option (ℕ × Allocator) → Type 0
Stops n byte bit a none = (k : ℕ) → bit ≤ k → k < bit + n → is_clear (a.bitmap byte) k ≡ false
Stops n byte bit a (some r) =
    (k : ℕ) × (bit ≤ k)
    × (k < bit + n)
    × (is_clear (a.bitmap byte) k ≡ true)
    × (r ≡ claim byte k a)
    × ((j : ℕ) → bit ≤ j → j < k → is_clear (a.bitmap byte) j ≡ false)

-- What holds of a first element and of all behind it holds of all.
cover :
    (P : ℕ → Type 0) (lo hi : ℕ)
    → P lo
    → ((k : ℕ) → lo + 1 ≤ k → k < hi → P k)
    → (k : ℕ) → lo ≤ k
    → k < hi
    → P k
cover P lo hi first rest k ge lt = elim (Bool-cases (lo == k)) [
  | inl e ↦ let e' : lo ≡ k = ground arith in rw e' at first
  | inr ne ↦ rest k (ground arith) lt
]

Stops-skip :
    (n byte bit : ℕ) (a : Allocator) (r : Option (ℕ × Allocator))
    → is_clear (a.bitmap byte) bit ≡ false
    → Stops n byte (bit + 1) a r
    → Stops (suc n) byte bit a r
Stops-skip n byte bit a none miss rest = λ k ge lt.
    cover (λ k. is_clear (a.bitmap byte) k ≡ false) bit (bit + suc n) miss
      (λ j p q. rest j p (omega arith)) k ge lt
Stops-skip n byte bit a (some r) miss (k, lo, hi, clear, eq, before) = (
  k,
  omega arith,
  omega arith,
  clear,
  eq,
  cover (λ j. is_clear (a.bitmap byte) j ≡ false) bit k miss before,
)

scan_bits-Stops : (n byte bit : ℕ) (a : Allocator) → Stops n byte bit a (scan_bits n byte bit a)
unfolding scan_bits
scan_bits-Stops zero byte bit a = λ k lo hi. absurd (omega arith)
scan_bits-Stops (suc n) byte bit a = elim (Bool-cases (is_clear (a.bitmap byte) bit)) [
  | inl hit ↦ rw hit (bit, omega arith, omega arith, hit, refl, λ j p q. absurd (omega arith))
  | inr miss ↦ rw miss (Stops-skip n byte bit a _ miss (scan_bits-Stops n byte (bit + 1) a))
]

-- `r` is a scan of the pages from `lo` up to `hi`: NULL and nothing changed when all are used, and
-- otherwise the claim of the first free one.
abbrev pub Scanned : Allocator → ℕ → ℕ → ℕ × Allocator → Type 0
Scanned a lo hi r =
    (r ≡ (null, a)) × ((q : ℕ) → lo ≤ q → q < hi → used a q ≡ true)
    ⊎ ((p : ℕ) × (lo ≤ p)
        × (p < hi)
        × (used a p ≡ false)
        × (r ≡ claim (p / 8) (p % 8) a)
        × ((q : ℕ) → lo ≤ q → q < p → used a q ≡ true))

Scanned-skip :
    (a : Allocator) (lo mid hi : ℕ) (r : ℕ × Allocator)
    → lo ≤ mid
    → ((q : ℕ) → lo ≤ q → q < mid → used a q ≡ true)
    → Scanned a mid hi r
    → Scanned a lo hi r
Scanned-skip a lo mid hi r le before (inl (eq, all)) = inl (
  eq,
  λ q p h. elim (Bool-cases (leb mid q)) [
    | inl above ↦ all q (ground arith) h
    | inr below ↦ before q p (ground arith)
  ],
)
Scanned-skip a lo mid hi r le before (inr (p, ge, lt, free, eq, lower)) = inr (
  p,
  omega arith,
  lt,
  free,
  eq,
  λ q h k. elim (Bool-cases (leb mid q)) [
    | inl above ↦ lower q (ground arith) k
    | inr below ↦ before q h (ground arith)
  ],
)

-- The bits of one byte are eight pages.
byte_used :
    (a : Allocator) (i : ℕ)
    → ((k : ℕ) → 0 ≤ k → k < 8 → is_clear (a.bitmap i) k ≡ false)
    → (q : ℕ) → i * 8 ≤ q
    → q < (i + 1) * 8
    → used a q ≡ true
byte_used a i all q ge lt =
    let e : q / 8 ≡ i = omega arith in rw (e, all (q % 8) (omega arith) (omega arith))

Stops-Scanned :
    (a : Allocator) (i hi : ℕ) (rest : ℕ × Allocator) (o : Option (ℕ × Allocator))
    → (i + 1) * 8 ≤ hi
    → Stops 8 i 0 a o
    → Scanned a ((i + 1) * 8) hi rest
    → Scanned a (i * 8) hi (elim o [ none ↦ rest | some r ↦ r ])
Stops-Scanned a i hi rest none fits all next =
    Scanned-skip a (i * 8) ((i + 1) * 8) hi rest (omega arith)
      (byte_used a i (λ k p q. all k p (omega arith))) next
Stops-Scanned a i hi rest (some r) fits (k, lo, lt, clear, eq, before) next =
    let e : (i * 8 + k) / 8 ≡ i = omega arith in
    let f : (i * 8 + k) % 8 ≡ k = omega arith in
    inr (
      i * 8 + k,
      omega arith,
      omega arith,
      rw (e, f, clear),
      rw (e, f) eq,
      λ q p h.
          let g : q / 8 ≡ i = omega arith in rw (g, before (q % 8) (omega arith) (omega arith)),
    )

pub scan_bytes-Scanned :
    (n i : ℕ) (a : Allocator) → Scanned a (i * 8) ((i + n) * 8) (scan_bytes n i a)
unfolding scan_bytes
scan_bytes-Scanned zero i a = inl (refl, λ q p h. absurd (omega arith))
scan_bytes-Scanned (suc n) i a =
    let next : Scanned a ((i + 1) * 8) ((i + suc n) * 8) (scan_bytes n (i + 1) a) =
      let e : i + suc n ≡ i + 1 + n = omega arith in rw e (scan_bytes-Scanned n (i + 1) a) in
    elim (Bool-cases (a.bitmap i == 0xFF)) [
      | inl full ↦ rw full (
          Scanned-skip a (i * 8) ((i + 1) * 8) _ _ (omega arith)
            (byte_used a i (λ k p q. ground (arith, is_clear-full k))) next)
      | inr other ↦ rw other (Stops-Scanned a i _ _ _ (omega arith) (scan_bits-Stops 8 i 0 a) next)
    ]
