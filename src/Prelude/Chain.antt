-- ===== src/Prelude/Chain.antt =====
-- Chains of calls that may have no result, and what a chain with a result went through.
use mathlib.Core.Bool.{Bool, true, false}
use mathlib.Core.Option.{Option, none, some}
use mathlib.Core.Path.{◌≡◌, refl}

infixl 5 ◌>>=◌
abbrev pub ◌>>=◌ {ℓ κ} : {A : Type ℓ} {B : Type κ} → Option A → (A → Option B) → Option B
none >>= f = none
some a >>= f = f a

-- The call, where the test before it passes.
abbrev pub require {ℓ} : {A : Type ℓ} → Bool → Option A → Option A
require true rest = rest
require false rest = none

pub >>=-eq-some {ℓ κ} :
    {A : Type ℓ} {B : Type κ} (m : Option A) (f : A → Option B) {b : B}
    → (m >>= f) ≡ some b
    → (a : A) × (m ≡ some a) × (f a ≡ some b)
>>=-eq-some none f h = cc
>>=-eq-some (some a) f h = (a, refl, h)

pub require-eq-some {ℓ} :
    {A : Type ℓ} (test : Bool) (rest : Option A) {a : A}
    → require test rest ≡ some a
    → (test ≡ true) × (rest ≡ some a)
require-eq-some true rest h = (refl, h)
require-eq-some false rest h = cc
