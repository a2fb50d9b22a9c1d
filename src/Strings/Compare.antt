-- ===== src/Strings/Compare.antt =====
-- Strings in memory as lists of bytes, and what the comparisons mean on them.
use icosaos.Prelude.{
  ℕ, zero, suc, ◌+◌, ◌<◌, ◌^◌, ◌≡◌, inl, inr, refl, List, [], ◌∷◌, arith, add32, sub32, ◌==◌,
  if◌then◌else◌, Bool-cases, Run, size_of, ok, ap, sym, ◌∙◌, ◌↔◌,
}
use icosaos.Strings.{strcmp, strncmp}

-- From `p` on the bytes of the list stand in memory, none of them zero, and a zero behind them, all
-- below the end of the address space.
abbrev pub HoldsString : (ℕ → ℕ) → ℕ → List ℕ → Type 0
HoldsString bytes p [] = (bytes p ≡ 0) × (p + 1 < 2 ^ 32)
HoldsString bytes p (c ∷ cs) =
    (bytes p ≡ c) × (0 < c) × (c < 256) × (p + 1 < 2 ^ 32) × HoldsString bytes (p + 1) cs

-- The difference at the first place where two strings differ, the end of one counting as zero.
abbrev pub difference : List ℕ → List ℕ → ℕ
difference [] [] = 0
difference [] (y ∷ ys) = sub32 0 y
difference (x ∷ xs) [] = x
difference (x ∷ xs) (y ∷ ys) = let rest = difference xs ys in if x == y then rest else sub32 x y

abbrev pub take : ℕ → List ℕ → List ℕ
take zero xs = []
take (suc n) [] = []
take (suc n) (x ∷ xs) = x ∷ take n xs

-- With more fuel than the first string has bytes, `strcmp` ends with the difference of the strings.
pub strcmp-difference :
    (fuel a b : ℕ) (bytes : ℕ → ℕ) (xs ys : List ℕ)
    → size_of xs < fuel
    → HoldsString bytes a xs
    → HoldsString bytes b ys
    → strcmp fuel a b bytes ≡ ok (difference xs ys)
unfolding strcmp
strcmp-difference zero a b bytes xs ys h p q = absurd (omega arith)
strcmp-difference (suc fuel) a b bytes [] [] h p q = ground (arith, ap {B = Run ℕ} ok)
strcmp-difference (suc fuel) a b bytes [] (y ∷ ys) h p q = ground arith
strcmp-difference (suc fuel) a b bytes (x ∷ xs) [] h p q = ground arith
strcmp-difference (suc fuel) a b bytes (x ∷ xs) (y ∷ ys) h (ea, px, lx, pa, p) (eb, py, ly, pb, q) =
    let na : add32 a 1 ≡ a + 1 = omega arith in
    let nb : add32 b 1 ≡ b + 1 = omega arith in
    rw (na, nb, ea, eb)
      (ground (arith, strcmp-difference fuel (a + 1) (b + 1) bytes xs ys (omega arith) p q))

-- `strncmp` is the difference of the strings cut off after `n` bytes.
pub strncmp-difference :
    (a b n : ℕ) (bytes : ℕ → ℕ) (xs ys : List ℕ)
    → HoldsString bytes a xs
    → HoldsString bytes b ys
    → strncmp a b n bytes ≡ difference (take n xs) (take n ys)
unfolding strncmp
strncmp-difference a b zero bytes xs ys p q = refl
strncmp-difference a b (suc n) bytes [] [] p q = ground arith
strncmp-difference a b (suc n) bytes [] (y ∷ ys) p q = ground arith
strncmp-difference a b (suc n) bytes (x ∷ xs) [] p q = ground arith
strncmp-difference a b (suc n) bytes (x ∷ xs) (y ∷ ys) (ea, px, lx, pa, p) (eb, py, ly, pb, q) =
    let na : add32 a 1 ≡ a + 1 = omega arith in
    let nb : add32 b 1 ≡ b + 1 = omega arith in
    rw (na, nb, ea, eb) (ground (arith, strncmp-difference (a + 1) (b + 1) n bytes xs ys p q))

difference-zero :
    (a b : ℕ) (bytes : ℕ → ℕ) (xs ys : List ℕ)
    → HoldsString bytes a xs
    → HoldsString bytes b ys
    → difference xs ys ≡ 0
    → xs ≡ ys
difference-zero a b bytes [] [] p q e = refl
difference-zero a b bytes [] (y ∷ ys) p q e = absurd (omega arith)
difference-zero a b bytes (x ∷ xs) [] p q e = absurd (omega arith)
difference-zero a b bytes (x ∷ xs) (y ∷ ys) (ea, px, lx, pa, p) (eb, py, ly, pb, q) e =
    elim (Bool-cases (x == y)) [
      | inl same ↦
          let head : x ≡ y = ground arith in
          let tail = difference-zero (a + 1) (b + 1) bytes xs ys p q (rw same at e) in cc
      | inr differs ↦ absurd (ground arith)
    ]

difference_refl : (xs : List ℕ) → difference xs xs ≡ 0
difference_refl [] = refl
difference_refl (x ∷ xs) = ground (arith, difference_refl xs)

ok-injective : {m n : ℕ} → ok m ≡ ok n → m ≡ n
ok-injective e = ground arith

-- With more fuel than the first string has bytes, `strcmp` returns 0 exactly for equal strings.
pub strcmp-zero :
    (fuel a b : ℕ) (bytes : ℕ → ℕ) (xs ys : List ℕ)
    → size_of xs < fuel
    → HoldsString bytes a xs
    → HoldsString bytes b ys
    → (strcmp fuel a b bytes ≡ ok 0) ↔ (xs ≡ ys)
strcmp-zero fuel a b bytes xs ys h p q =
    let e = strcmp-difference fuel a b bytes xs ys h p q in
    (
      λ z. difference-zero a b bytes xs ys p q (ok-injective (sym e ∙ z)),
      λ same. e ∙ ap ok (ap (difference xs) (sym same) ∙ difference_refl xs),
    )
