-- ===== src/Base/Flags.antt =====
-- The lowest bit of a set of flags.
use Prim.Native.Nat.{
  ℕ, zero, suc, ◌/◌, ◌%◌, min, max, bit_and, bit_or, digits, bit_and-bitwise, bit_or-bitwise,
}
use mathlib.Core.Path.{◌≡◌, refl}
use native.Mathlib.Omega.{arith}

and_low : (a b : ℕ) → bit_and a b % 2 ≡ min (a % 2) (b % 2)
and_low zero b = omega (arith, bit_and-bitwise 0 b)
and_low (suc a) b = omega (arith, bit_and-bitwise (suc a) b)

-- A union has the lowest flag if one of the two has it.
pub bit_or_low : (a b : ℕ) → bit_or a b % 2 ≡ max (a % 2) (b % 2)
bit_or_low zero b = omega (arith, bit_or-bitwise 0 b)
bit_or_low (suc a) b = omega (arith, bit_or-bitwise (suc a) b)

-- A mask that has the lowest flag keeps it.
pub bit_and_low : (a b : ℕ) → b % 2 ≡ 1 → bit_and a b % 2 ≡ a % 2
bit_and_low a b h = omega (arith, and_low a b, h)

and_none : (n a : ℕ) → digits (λ b. zero) min n a 0 ≡ 0
and_none zero a = refl
and_none (suc n) zero = refl
and_none (suc n) (suc a) = omega (arith, and_none n (suc a / 2))

pub bit_and-1 : (a : ℕ) → bit_and a 1 ≡ a % 2
bit_and-1 zero = bit_and-bitwise 0 1
bit_and-1 (suc a) = omega (arith, bit_and-bitwise (suc a) 1, and_none a (suc a / 2))
