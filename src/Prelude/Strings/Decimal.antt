-- ===== src/Prelude/Strings/Decimal.antt =====
-- `{}` of an unsigned integer: its decimal digits.
use Prim.Native.Nat.{ℕ, zero, suc, ◌+◌, ◌/◌, ◌%◌, ◌<◌, ◌≤◌}
use mathlib.Core.Path.{◌≡◌, refl, ap}
use mathlib.Core.Logic.{inl, inr}
use mathlib.Core.List.{[], ◌∷◌, ◌++◌}
use native.Mathlib.Omega.{arith}
use hsin_rs.Prelude.Tests.{ltb, ltb→ge, ge→ltb, if◌then◌else◌, Bool-cases}
use hsin_rs.Prelude.Strings.Defs.{Text}

-- The fuel bounds the number of digits.
decimal_fuel : ℕ → ℕ → Text
decimal_fuel zero n = []
decimal_fuel (suc f) n =
    let rest = decimal_fuel f (n / 10) in
    if ltb n 10 then (b'0' + n) ∷ [] else rest ++ (b'0' + n % 10) ∷ []

unfoldable pub decimal : ℕ → Text
unfolding decimal_fuel
decimal n = decimal_fuel (suc n) n

-- Fuel above the number is enough: more of it changes nothing.
decimal_fuel_enough : (f g n : ℕ) → n < f → n < g → decimal_fuel f n ≡ decimal_fuel g n
unfolding decimal_fuel
decimal_fuel_enough zero g n h k = ground arith
decimal_fuel_enough (suc f) zero n h k = ground arith
decimal_fuel_enough (suc f) (suc g) n h k = elim (Bool-cases (ltb n 10)) [
  | inl e ↦ rw e refl
  | inr e ↦
      let big = ltb→ge n 10 e in
      rw e (
        ap (λ r. r ++ (b'0' + n % 10) ∷ [])
          (decimal_fuel_enough f g (n / 10) (omega arith) (omega arith)))
]

-- A number of more than one digit is written as its tenth and its last digit.
pub decimal_lem : (n : ℕ) → 10 ≤ n → decimal n ≡ decimal (n / 10) ++ (b'0' + n % 10) ∷ []
unfolding decimal
decimal_lem n h = rw (ge→ltb n 10 h) (
    ap (λ r. r ++ (b'0' + n % 10) ∷ [])
      (decimal_fuel_enough n (suc (n / 10)) (n / 10) (omega arith) (omega arith)))
