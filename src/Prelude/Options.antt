-- ===== src/Prelude/Options.antt =====
-- Chains of calls that may be undefined, as `do` blocks of `Option`.
use mathlib.Core.Path.{◌≡◌, refl}
use mathlib.Core.Option.{Option, none, some}

infixl 5 ◌>>=◌
abbrev pub ◌>>=◌ {ℓ κ} : {A : Type ℓ} {B : Type κ} → Option A → (A → Option B) → Option B
none >>= k = none
some a >>= k = k a

-- A chain that is defined is defined in both parts.
pub bind-eq-some {ℓ κ} :
    {A : Type ℓ} {B : Type κ} (m : Option A) (k : A → Option B) {b : B}
    → (m >>= k) ≡ some b
    → (a : A) × (m ≡ some a) × (k a ≡ some b)
bind-eq-some none k h = cc
bind-eq-some (some a) k h = (a, refl, h)

pub some_cancel {ℓ} : {A : Type ℓ} {a b : A} → some a ≡ some b → a ≡ b
some_cancel h = cc
