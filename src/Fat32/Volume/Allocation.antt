-- ===== src/Fat32/Volume/Allocation.antt =====
-- What the file system asks of the heap: regions that lie apart, returned in the reverse order.
use icosaos.Prelude.{
  ℕ, suc, ◌+◌, ◌≤◌, ◌<◌, ◌^◌, ◌≡◌, ◌⊎◌, refl, ◌∙◌, arith, List, [], ◌∷◌, Run, ok, out_of_fuel,
}
use icosaos.Fat32.Volume.{KernelAllocator, null}

-- A region of memory by its address and its size.
abbrev pub Region : Type 0
Region = ℕ × ℕ

abbrev pub Apart : ℕ → ℕ → List Region → Type 0
Apart p n [] = Unit {0}
Apart p n (r ∷ rs) = ((p + n ≤ r.0) ⊎ (r.0 + r.1 ≤ p)) × Apart p n rs

abbrev pub Fresh : ℕ → ℕ → List Region → Type 0
Fresh p n rs = (0 < p) × (p + n ≤ 2 ^ 32) × Apart p n rs

-- How an allocation of `n` bytes ends, in a heap with room for `k + 1` sectors: with a fresh region, or
-- with NULL where it was for more than a sector.
abbrev pub Lent :
    {Sys : Type 0} → (ℕ → Sys → List Region → Type 0) → ℕ → ℕ → List Region → Run (ℕ × Sys) → Type 0
Lent Holds k n rs out_of_fuel = ⊥
Lent Holds k n rs (ok (p, h)) =
    (p ≡ null) × (512 < n) × Holds (suc k) h rs ⊎ Fresh p n rs × Holds k h ((p, n) ∷ rs)

abbrev pub Returned :
    {Sys : Type 0} → (ℕ → Sys → List Region → Type 0) → ℕ → List Region → Run Sys → Type 0
Returned Holds k rs out_of_fuel = ⊥
Returned Holds k rs (ok h) = Holds k h rs

-- The contract of the heap. `Holds k h rs`: in the heap `h` the regions `rs` are lent, the last one
-- first, and there is room for `k` more of up to a sector. It is asked for regions that are not empty, and
-- that with their header can be rounded up to pages at 32 bits; what `kmalloc` does else is left open.
pub record Serves (A : KernelAllocator) : Type 1 where
  pub Holds : ℕ → A.Sys → List Region → Type 0
  pub lends :
      (k n : ℕ) (h : A.Sys) (rs : List Region)
      → Holds (suc k) h rs
      → 0 < n
      → n + 8192 ≤ 2 ^ 32
      → Lent Holds k n rs (A.kmalloc n h)
  pub takes_back :
      (k p n : ℕ) (h : A.Sys) (rs : List Region)
      → Holds k h ((p, n) ∷ rs)
      → Returned Holds (suc k) rs (A.kfree p h)

-- Memory within the regions is as it was.
abbrev pub Kept : List Region → (ℕ → ℕ) → (ℕ → ℕ) → Type 0
Kept [] b b' = Unit {0}
Kept (r ∷ rs) b b' = ((a : ℕ) → r.0 ≤ a → a < r.0 + r.1 → b' a ≡ b a) × Kept rs b b'

-- A change within a region apart from them.
pub Kept-Apart :
    (p n : ℕ) (rs : List Region) (b b' : ℕ → ℕ)
    → Apart p n rs
    → ((a : ℕ) → (a < p) ⊎ (p + n ≤ a) → b' a ≡ b a)
    → Kept rs b b'
Kept-Apart p n [] b b' apart same = tt
Kept-Apart p n (r ∷ rs) b b' (here, apart) same =
    (λ a lo hi. same a (ground arith), Kept-Apart p n rs b b' apart same)

pub Kept-after :
    (rs : List Region) (b b' b'' : ℕ → ℕ) → Kept rs b b' → Kept rs b' b'' → Kept rs b b''
Kept-after [] b b' b'' k k' = tt
Kept-after (r ∷ rs) b b' b'' (k, ks) (k', ks') =
    (λ a lo hi. k' a lo hi ∙ k a lo hi, Kept-after rs b b' b'' ks ks')

pub Kept-self : (rs : List Region) (b : ℕ → ℕ) → Kept rs b b
Kept-self [] b = tt
Kept-self (r ∷ rs) b = (λ a lo hi. refl, Kept-self rs b)

-- A change within two regions apart from them.
pub Kept-two :
    (p n q m : ℕ) (rs : List Region) (b b' : ℕ → ℕ)
    → Apart p n rs
    → Apart q m rs
    → ((a : ℕ) → (a < p) ⊎ (p + n ≤ a) → (a < q) ⊎ (q + m ≤ a) → b' a ≡ b a)
    → Kept rs b b'
Kept-two p n q m [] b b' apart apart' same = tt
Kept-two p n q m (r ∷ rs) b b' (here, apart) (here', apart') same =
    (λ a lo hi. same a (ground arith) (ground arith), Kept-two p n q m rs b b' apart apart' same)
