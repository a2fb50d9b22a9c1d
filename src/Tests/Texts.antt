-- ===== src/Tests/Texts.antt =====
-- The strings "ab" at 100 and "abc" at 200.
use icosaos.Prelude.{ℕ, refl, [], ◌∷◌, arith, ◌==◌, if◌then◌else◌}
use icosaos.Strings.Compare.{HoldsString}

abbrev bytes : ℕ → ℕ
bytes a =
    if a == 100
    then 97
    else if a == 101
    then 98
    else if a == 200
    then 97
    else if a == 201
    then 98
    else if a == 202
    then 99
    else 0

ab : HoldsString bytes 100 (97 ∷ 98 ∷ [])
ab = (
  refl,
  omega arith,
  omega arith,
  omega arith,
  (refl, omega arith, omega arith, omega arith, (refl, omega arith)),
)

abc : HoldsString bytes 200 (97 ∷ 98 ∷ 99 ∷ [])
abc = (
  refl,
  omega arith,
  omega arith,
  omega arith,
  (
    refl,
    omega arith,
    omega arith,
    omega arith,
    (refl, omega arith, omega arith, omega arith, (refl, omega arith)),
  ),
)
