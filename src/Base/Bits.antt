-- ===== src/Base/Bits.antt =====
-- Facts about bit_and at variables.
use Prim.Native.Nat.{ℕ, zero, suc, ◌/◌, ◌≤◌, min, bit_and, digits, bit_and-bitwise}
use native.Mathlib.Omega.{arith}

digits-min-le : (fuel a b : ℕ) → digits (λ c. zero) min fuel a b ≤ a
digits-min-le zero zero b = omega arith
digits-min-le zero (suc a) b = omega arith
digits-min-le (suc fuel) zero b = omega arith
digits-min-le (suc fuel) (suc a) b = omega (arith, digits-min-le fuel (suc a / 2) (b / 2))

-- A mask never makes a value larger.
pub bit_and-le : (a b : ℕ) → bit_and a b ≤ a
bit_and-le a b = omega (arith, bit_and-bitwise a b, digits-min-le a a b)
