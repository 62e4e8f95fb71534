-- ===== src/Base/Little.antt =====
-- Numbers as bytes, the lowest first.
use Prim.Native.Nat.{ℕ, zero, suc, ◌+◌, ◌*◌, ◌/◌, ◌%◌, ◌^◌, ◌<◌}
use mathlib.Core.Path.{◌≡◌, refl, ap}
use mathlib.Core.List.{List, [], ◌∷◌}
use native.Mathlib.Omega.{arith}
use objmapper.Base.Lists.{length}

unfoldable pub le : ℕ → ℕ → List ℕ
le zero v = []
le (suc k) v = (v % 256) ∷ le k (v / 256)

unfoldable pub of_le : List ℕ → ℕ
of_le [] = 0
of_le (b ∷ bs) = b + 256 * of_le bs

pub length-le : (k v : ℕ) → length (le k v) ≡ k
unfolding le
length-le zero v = refl
length-le (suc k) v = ap suc (length-le k (v / 256))

-- A number that fits in the bytes is read back.
pub of_le-le : (k v : ℕ) → v < 256 ^ k → of_le (le k v) ≡ v
unfolding le of_le
of_le-le zero v h = omega arith
of_le-le (suc k) v h = omega (arith, of_le-le k (v / 256) (omega (arith, pow256 k)))
  where
    pow256 : (j : ℕ) → 256 ^ suc j ≡ 256 * 256 ^ j
    pow256 j = omega arith
