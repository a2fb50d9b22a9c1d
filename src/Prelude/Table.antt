-- ===== src/Prelude/Table.antt =====
-- Tables as lists, and a test of every number below a bound, which evaluation decides.
use Prim.Native.Nat.{ℕ, zero, suc, ◌<◌}
use mathlib.Core.Path.{◌≡◌}
use mathlib.Core.Logic.{inl, inr}
use mathlib.Core.Bool.{Bool, true, false}
use mathlib.Core.List.{List, [], ◌∷◌}
use native.Mathlib.Omega.{arith}
use icosaos.Prelude.Tests.{if◌then◌else◌, Bool-cases, ◌==◌}

unfoldable pub every : ℕ → (ℕ → Bool) → Bool
every zero test = true
every (suc bound) test = let below = every bound test in if test bound then below else false

pub every-lt :
    (bound : ℕ) (test : ℕ → Bool) → every bound test ≡ true → (x : ℕ) → x < bound → test x ≡ true
unfolding every
every-lt zero test e x less = absurd (omega arith)
every-lt (suc bound) test e x less = elim (Bool-cases (test bound)) [
  | inl passed ↦ elim (Bool-cases (x == bound)) [
    | inl here ↦ let at : x ≡ bound = ground arith in rw at passed
    | inr above ↦ every-lt bound test (rw passed at e) x (ground arith)
  ]
  | inr failed ↦ absurd (ground arith)
]

-- `table[i]` within the table, and the number of its entries.
abbrev pub get_elem : List ℕ → ℕ → ℕ
get_elem [] i = 0
get_elem (x ∷ xs) zero = x
get_elem (x ∷ xs) (suc i) = get_elem xs i

abbrev pub size_of {ℓ} : {A : Type ℓ} → List A → ℕ
size_of [] = 0
size_of (x ∷ xs) = suc (size_of xs)
