-- ===== src/Prelude/Fuel.antt =====
-- The result of code with loops on fuel, and its bind.
use mathlib.Core.Path.{◌≡◌, refl}

pub data Run {ℓ} (A : Type ℓ) : Type ℓ where
  ok : A → Run A
  out_of_fuel : Run A

infixl 5 ◌>>=◌
abbrev pub ◌>>=◌ {ℓ κ} : {A : Type ℓ} {B : Type κ} → Run A → (A → Run B) → Run B
ok a >>= k = k a
out_of_fuel >>= k = out_of_fuel

pub bind_cong {ℓ κ} :
    {A : Type ℓ} {B : Type κ} (r : Run A) (f g : A → Run B)
    → ((a : A) → f a ≡ g a)
    → (r >>= f) ≡ (r >>= g)
bind_cong (ok a) f g same = same a
bind_cong out_of_fuel f g same = refl

pub bind_assoc {ℓ} :
    {A B C : Type ℓ} (r : Run A) (f : A → Run B) (g : B → Run C)
    → (r >>= λ a. f a >>= g) ≡ (r >>= f >>= g)
bind_assoc (ok a) f g = refl
bind_assoc out_of_fuel f g = refl

-- A run that has enough fuel ends in a value with a property.
pub data Ends {ℓ κ} {A : Type ℓ} (P : A → Type κ) : Run A → Type (ℓ ⊔ κ) where
  ends : {a : A} → P a → Ends P (ok a)
  starved : Ends P out_of_fuel

pub Ends-bind {ℓ κ} :
    {A B : Type ℓ} {P : A → Type κ} {Q : B → Type κ} {r : Run A} {k : A → Run B}
    → Ends P r
    → ((a : A) → P a → Ends Q (k a))
    → Ends Q (r >>= k)
Ends-bind (ends p) next = next _ p
Ends-bind starved next = starved

pub Ends-any {ℓ} : {A : Type ℓ} (r : Run A) → Ends (λ _. Unit {0}) r
Ends-any (ok a) = ends tt
Ends-any out_of_fuel = starved

pub Ends-mono {ℓ κ μ} :
    {A : Type ℓ} {P : A → Type κ} {Q : A → Type μ} {r : Run A}
    → Ends P r
    → ((a : A) → P a → Q a)
    → Ends Q r
Ends-mono (ends p) weaken = ends (weaken _ p)
Ends-mono starved weaken = starved

pub Ends-equation {ℓ κ} :
    {A : Type ℓ} {P : A → Type κ} {r : Run A} → Ends P r → Ends (λ a. P a × (r ≡ ok a)) r
Ends-equation (ends p) = ends (p, refl)
Ends-equation starved = starved
