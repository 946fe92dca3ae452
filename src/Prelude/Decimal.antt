-- ===== src/Prelude/Decimal.antt =====
-- Decimal printing of numbers, as `strconv.Itoa` of a number that is not negative.
use Prim.Native.Nat.{ℕ, zero, suc, ◌+◌, ◌-◌, ◌*◌, ◌/◌, ◌%◌, ◌<◌}
use mathlib.Core.Path.{◌≡◌, refl}
use mathlib.Core.Logic.{inl, inr}
use mathlib.Core.List.{[], ◌∷◌, ◌++◌}
use native.Mathlib.Omega.{arith}
use activity_relay_directory.Prelude.Tests.{ltb, ltb→lt, Bool-cases, if◌then◌else◌}
use activity_relay_directory.Prelude.Lists.{All, All-append}
use activity_relay_directory.Prelude.Text.{Bytes}

-- The digits of `n`, most significant first. A number has at most as many digits as its value plus one.
decimal_fuel : ℕ → ℕ → Bytes
decimal_fuel zero n = []
decimal_fuel (suc f) n =
    let more = decimal_fuel f (n / 10) ++ (b'0' + n % 10) ∷ [] in
    if ltb n 10 then (b'0' + n) ∷ [] else more

unfoldable pub decimal : ℕ → Bytes
unfolding decimal_fuel
decimal n = decimal_fuel (suc n) n

-- The number that digits spell.
unfoldable pub decimal_value : ℕ → Bytes → ℕ
decimal_value acc [] = acc
decimal_value acc (c ∷ cs) = decimal_value (acc * 10 + (c - b'0')) cs

decimal_value-append :
    (acc : ℕ) (s t : Bytes) → decimal_value acc (s ++ t) ≡ decimal_value (decimal_value acc s) t
unfolding decimal_value
decimal_value-append acc [] t = refl
decimal_value-append acc (c ∷ s) t = decimal_value-append (acc * 10 + (c - b'0')) s t

decimal_value-decimal_fuel : (f n : ℕ) → n < f → decimal_value 0 (decimal_fuel f n) ≡ n
unfolding decimal_fuel decimal_value
decimal_value-decimal_fuel zero n h = elim h [ ]
decimal_value-decimal_fuel (suc f) n h = ground (
  arith,
  decimal_value-append 0 (decimal_fuel f (n / 10)) ((b'0' + n % 10) ∷ []),
  decimal_value-decimal_fuel f (n / 10),
)

-- Different numbers are printed differently.
pub decimal_injective : (m n : ℕ) → decimal m ≡ decimal n → m ≡ n
unfolding decimal
decimal_injective m n e =
    ground (arith, decimal_value-decimal_fuel (suc m) m, decimal_value-decimal_fuel (suc n) n)

decimal_fuel-digits : (f n : ℕ) → All (λ c. c < b':') (decimal_fuel f n)
unfolding decimal_fuel
decimal_fuel-digits zero n = tt
decimal_fuel-digits (suc f) n = elim (Bool-cases (ltb n 10)) [
  | inl small ↦ rw small (omega (arith, ltb→lt n 10 small), tt)
  | inr large ↦ rw large (
      All-append (λ (c : ℕ). c < b':') (decimal_fuel f (n / 10)) ((b'0' + n % 10) ∷ [])
        (decimal_fuel-digits f (n / 10)) (omega arith, tt))
]

-- A printed number holds digits only, so no colon.
pub decimal-digits : (n : ℕ) → All (λ c. c < b':') (decimal n)
unfolding decimal
decimal-digits n = decimal_fuel-digits (suc n) n
