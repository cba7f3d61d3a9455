-- ===== src/Prelude/Words.antt =====
-- Machine words as native numbers, with the saturating and wrapping operations written out.
use Prim.Native.Nat.{ℕ, zero, suc, ◌+◌, ◌-◌, ◌*◌, ◌%◌, ◌^◌, ◌≤◌, min}
use mathlib.Core.Path.{◌≡◌}
use native.Mathlib.Omega.{arith}

-- `usize` is taken to have 64 bits, as on every platform that the releases support.
abbrev pub u64_max : ℕ
u64_max = 2 ^ 64 - 1

abbrev pub i64_max : ℕ
i64_max = 2 ^ 63 - 1

-- `u64::saturating_add` and `u64::saturating_mul`
abbrev pub saturating_add : ℕ → ℕ → ℕ
saturating_add a b = min (a + b) u64_max

abbrev pub saturating_mul : ℕ → ℕ → ℕ
saturating_mul a b = min (a * b) u64_max

-- `u64::wrapping_add`
abbrev pub wrapping_add : ℕ → ℕ → ℕ
wrapping_add a b = (a + b) % 2 ^ 64

pub saturating_add-le : (a b : ℕ) → saturating_add a b ≤ u64_max
saturating_add-le a b = omega arith

pub saturating_add_assoc :
    (a b c : ℕ) → saturating_add (saturating_add a b) c ≡ min (a + b + c) u64_max
saturating_add_assoc a b c = omega arith

-- The integers over these numbers: `negsuc n` is one below `-n`.
pub data ℤ : Type 0 where
  pos negsuc : ℕ → ℤ

-- The number below zero by `n`.
abbrev pub minus : ℕ → ℤ
minus zero = pos 0
minus (suc n) = negsuc n
