-- ===== src/Prelude/Bits.antt =====
-- The bit operations at every width: both work on two fields of bits separately.
use Prim.Native.Nat.{min, max, digits, bitwise, bit_and-bitwise, bit_or-bitwise, bit_and, bit_or}
use Prim.Native.Nat.{ℕ, zero, suc, ◌+◌, ◌-◌, ◌*◌, ◌/◌, ◌%◌, ◌^◌, ◌≤◌, ◌<◌}
use mathlib.Core.Path.{◌≡◌, refl, ap, ◌∙◌}
use native.Mathlib.Nat.{le_refl, pow-suc, one-le-pow, div-add-mod}
use native.Mathlib.Omega.{arith}

-- The recursion on digits does not depend on its fuel, where there is enough.
module _ (last : ℕ → ℕ) (digit : ℕ → ℕ → ℕ) where
  enough_fuel : (n m a b : ℕ) → a ≤ n → a ≤ m → digits last digit n a b ≡ digits last digit m a b
  enough_fuel zero zero a b p q = refl
  enough_fuel zero (suc m) zero b p q = refl
  enough_fuel (suc n) zero zero b p q = refl
  enough_fuel (suc n) (suc m) zero b p q = refl
  enough_fuel zero (suc m) (suc a) b p q = absurd (omega arith)
  enough_fuel (suc n) zero (suc a) b p q = absurd (omega arith)
  enough_fuel (suc n) (suc m) (suc a) b p q =
      rw (enough_fuel n m (suc a / 2) (b / 2) (omega arith) (omega arith))

  lowest_digit :
      (a b : ℕ)
      → bitwise last digit (suc a) b
        ≡ bitwise last digit (suc a / 2) (b / 2) * 2 + digit (suc a % 2) (b % 2)
  lowest_digit a b =
      omega (arith, enough_fuel a (suc a / 2) (suc a / 2) (b / 2) (omega arith) (le_refl _))

pub or-lowest : (a b : ℕ) → bit_or a b ≡ bit_or (a / 2) (b / 2) * 2 + max (a % 2) (b % 2)
or-lowest zero b = simp bit_or-bitwise (omega arith)
or-lowest (suc a) b = simp bit_or-bitwise (lowest_digit (λ y. y) max a b)

pub and-lowest : (a b : ℕ) → bit_and a b ≡ bit_and (a / 2) (b / 2) * 2 + min (a % 2) (b % 2)
and-lowest zero b = simp bit_and-bitwise (omega arith)
and-lowest (suc a) b = simp bit_and-bitwise (lowest_digit (λ y. 0) min a b)

double : (q k : ℕ) → q * 2 ^ suc k ≡ 2 * (q * 2 ^ k)
double q k = omega (arith, ap (λ (t : ℕ). q * t) (pow-suc 2 k))

halves : (p k r : ℕ) → (p * 2 ^ suc k + r) / 2 ≡ p * 2 ^ k + r / 2
halves p k r = omega (arith, double p k)

parity : (p k r : ℕ) → (p * 2 ^ suc k + r) % 2 ≡ r % 2
parity p k r = omega (arith, double p k)

half_lt : (k r : ℕ) → r < 2 ^ suc k → r / 2 < 2 ^ k
half_lt k r h = omega (arith, pow-suc 2 k)

-- `|` of two words made of a high and a low field.
pub or_fields :
    (k p q r s : ℕ)
    → r < 2 ^ k
    → s < 2 ^ k
    → bit_or (p * 2 ^ k + r) (q * 2 ^ k + s) ≡ bit_or p q * 2 ^ k + bit_or r s
or_fields zero p q r s hr hs =
    let e : r ≡ 0 = omega arith in
    let f : s ≡ 0 = omega arith in
    let g : p * 1 + 0 ≡ p = omega arith in
    let h : q * 1 + 0 ≡ q = omega arith in rw (e, f, g, h) (omega arith)
or_fields (suc k) p q r s hr hs = rw (or-lowest (p * 2 ^ suc k + r) (q * 2 ^ suc k + s)) (
    rw (halves p k r, halves q k s, parity p k r, parity q k s)
      (omega (
        arith,
        or_fields k p q (r / 2) (s / 2) (half_lt k r hr) (half_lt k s hs),
        or-lowest r s,
        double (bit_or p q) k,
      )))

-- `&` of two words made of a high and a low field.
pub and_fields :
    (k p q r s : ℕ)
    → r < 2 ^ k
    → s < 2 ^ k
    → bit_and (p * 2 ^ k + r) (q * 2 ^ k + s) ≡ bit_and p q * 2 ^ k + bit_and r s
and_fields zero p q r s hr hs =
    let e : r ≡ 0 = omega arith in
    let f : s ≡ 0 = omega arith in
    let g : p * 1 + 0 ≡ p = omega arith in
    let h : q * 1 + 0 ≡ q = omega arith in rw (e, f, g, h) (omega arith)
and_fields (suc k) p q r s hr hs = rw (and-lowest (p * 2 ^ suc k + r) (q * 2 ^ suc k + s)) (
    rw (halves p k r, halves q k s, parity p k r, parity q k s)
      (omega (
        arith,
        and_fields k p q (r / 2) (s / 2) (half_lt k r hr) (half_lt k s hs),
        and-lowest r s,
        double (bit_and p q) k,
      )))

pub or-lt : (k r s : ℕ) → r < 2 ^ k → s < 2 ^ k → bit_or r s < 2 ^ k
or-lt zero r s hr hs =
    let e : r ≡ 0 = omega arith in let f : s ≡ 0 = omega arith in rw (e, f) (omega arith)
or-lt (suc k) r s hr hs =
    omega
      (arith, or-lowest r s, or-lt k (r / 2) (s / 2) (half_lt k r hr) (half_lt k s hs), pow-suc 2 k)

or-zero_below : (k a : ℕ) → a < 2 ^ k → bit_or a 0 ≡ a
or-zero_below zero a h = let e : a ≡ 0 = omega arith in rw e refl
or-zero_below (suc k) a h = omega (arith, or-lowest a 0, or-zero_below k (a / 2) (half_lt k a h))

and-zero_below : (k a : ℕ) → a < 2 ^ k → bit_and a 0 ≡ 0
and-zero_below zero a h = let e : a ≡ 0 = omega arith in rw e refl
and-zero_below (suc k) a h = omega (arith, and-lowest a 0, and-zero_below k (a / 2) (half_lt k a h))

-- Every number is below some power of two: itself as the exponent will do.
below_power : (a : ℕ) → a < 2 ^ a
below_power zero = omega arith
below_power (suc a) = omega (arith, below_power a, pow-suc 2 a)

pub or-zero : (a : ℕ) → bit_or a 0 ≡ a
or-zero a = or-zero_below a a (below_power a)

pub and-zero : (a : ℕ) → bit_and a 0 ≡ 0
and-zero a = and-zero_below a a (below_power a)

pub zero-or : (a : ℕ) → bit_or 0 a ≡ a
zero-or a = simp bit_or-bitwise refl

pub zero-and : (a : ℕ) → bit_and 0 a ≡ 0
zero-and a = simp bit_and-bitwise refl

-- `&` with the mask of the `k` low bits.
and-mask_below : (k r : ℕ) → r < 2 ^ k → bit_and r (2 ^ k - 1) ≡ r
and-mask_below zero r h = omega (arith, and-zero r)
and-mask_below (suc k) r h =
    let pos = one-le-pow k 2 in
    let m : (2 ^ suc k - 1) / 2 ≡ 2 ^ k - 1 = omega (arith, pow-suc 2 k) in
    let b : (2 ^ suc k - 1) % 2 ≡ 1 = omega (arith, pow-suc 2 k) in
    rw (and-lowest r (2 ^ suc k - 1))
      (rw (m, b) (omega (arith, and-mask_below k (r / 2) (half_lt k r h))))

pub and-mask : (k a : ℕ) → bit_and a (2 ^ k - 1) ≡ a % 2 ^ k
and-mask k a =
    let pos = one-le-pow k 2 (omega arith) in
    let split : a ≡ a / 2 ^ k * 2 ^ k + a % 2 ^ k = omega (arith, div-add-mod a (2 ^ k)) in
    let whole : 0 * 2 ^ k + (2 ^ k - 1) ≡ 2 ^ k - 1 = omega arith in
    let fields = and_fields k (a / 2 ^ k) 0 (a % 2 ^ k) (2 ^ k - 1) (omega arith) (omega arith) in
    ap (λ (x : ℕ). bit_and x (2 ^ k - 1)) split
    ∙ (rw whole at fields)
    ∙ rw (and-zero, and-mask_below k (a % 2 ^ k) (omega arith)) (omega arith)

-- `x & ~0xFFF` and `x & 0x3FF` of a 32-bit word.
pub and-page_mask : (x : ℕ) → x < 2 ^ 32 → bit_and x (2 ^ 32 - 1 - 0xFFF) ≡ x / 4096 * 4096
and-page_mask x h =
    let split : x / 4096 * 4096 + x % 4096 ≡ x = omega arith in
    let fields = and_fields 12 (x / 4096) (2 ^ 20 - 1) (x % 4096) 0 (omega arith) (omega arith) in
    rw split at fields ∙ rw (and-mask 20 (x / 4096), and-zero) (omega arith)

-- `frame | bits` of an aligned frame and bits below the page size.
pub or-frame : (x r : ℕ) → r < 4096 → bit_or (x * 4096) r ≡ x * 4096 + r
or-frame x r h =
    let a : x * 4096 + 0 ≡ x * 4096 = omega arith in
    let b : 0 * 4096 + r ≡ r = omega arith in
    let fields = or_fields 12 x 0 0 r (omega arith) h in rw (a, b) at fields ∙ rw (or-zero, zero-or)

-- `entry | bits` keeps the frame of the entry and sets the bits.
pub or-entry : (x r s : ℕ) → r < 4096 → s < 4096 → bit_or (x * 4096 + r) s ≡ x * 4096 + bit_or r s
or-entry x r s hr hs =
    let b : 0 * 4096 + s ≡ s = omega arith in
    let fields = or_fields 12 x 0 r s hr hs in rw b at fields ∙ rw or-zero

pub and-lt : (k r s : ℕ) → s < 2 ^ k → bit_and r s < 2 ^ k
and-lt zero r s h = let e : s ≡ 0 = omega arith in rw (e, and-zero) (omega arith)
and-lt (suc k) r s h =
    omega (arith, and-lowest r s, and-lt k (r / 2) (s / 2) (half_lt k s h), pow-suc 2 k)

-- `low | (high << k)` of fields that do not overlap.
pub or-shifted : (k low high : ℕ) → low < 2 ^ k → bit_or low (high * 2 ^ k) ≡ high * 2 ^ k + low
or-shifted k low high h =
    let a : 0 * 2 ^ k + low ≡ low = omega arith in
    let b : high * 2 ^ k + 0 ≡ high * 2 ^ k = omega arith in
    let fields = or_fields k 0 high low 0 h (one-le-pow k 2 (omega arith)) in
    rw (a, b, or-zero, zero-or) at fields

-- `x & ~7` of a 32-bit word.
pub and-tag_mask : (x : ℕ) → x < 2 ^ 32 → bit_and x (2 ^ 32 - 1 - 7) ≡ x / 8 * 8
and-tag_mask x h =
    let split : x / 8 * 8 + x % 8 ≡ x = omega arith in
    let fields = and_fields 3 (x / 8) (2 ^ 29 - 1) (x % 8) 0 (omega arith) (omega arith) in
    rw split at fields ∙ rw (and-mask 29 (x / 8), and-zero) (omega arith)
