-- ===== src/Prelude/Powers.antt =====
-- Powers of two.
use checks.Prelude.Tests.{Bool-cases, leb}
use Prim.Native.Nat.{ℕ, zero, suc, ◌^◌, ◌≤◌, ◌<◌}
use mathlib.Core.Logic.{inl, inr}
use native.Mathlib.Nat.{pow-le-pow_right}
use native.Mathlib.Omega.{arith}

pub positive : (n : ℕ) → 0 < 2 ^ n
positive zero = omega arith
positive (suc n) = let rest = positive n in omega (arith, rest)

pub power_le : (m n : ℕ) → m ≤ n → 2 ^ m ≤ 2 ^ n
power_le m n le = pow-le-pow_right {n = 2} (omega arith) le

pub exponent_lt : (m n : ℕ) → 2 ^ m < 2 ^ n → m < n
exponent_lt m n lt = elim (Bool-cases (leb n m)) [
  | inl large ↦ absurd (omega (arith, power_le n m (ground arith)))
  | inr low ↦ ground arith
]
