-- ===== src/Base/Bytes.antt =====
-- Integers on the wire: htons, htonl and htobe64 are `be 2`, `be 4` and `be 8`, most significant
-- byte first; ntohs, ntohl and be64toh are `of_be`. A wider value is cut to the field's width,
-- as the C conversion does.
use Prim.Native.Nat.{ℕ, zero, suc, ◌+◌, ◌*◌, ◌/◌, ◌%◌, ◌^◌, ◌<◌}
use mathlib.Core.Path.{◌≡◌, refl, ◌∙◌}
use mathlib.Core.List.{List, [], ◌∷◌, ◌++◌}
use native.Mathlib.Omega.{arith}
use objmapper.Base.Lists.{length, length-append, take, drop}

unfoldable pub be : ℕ → ℕ → List ℕ
be zero v = []
be (suc k) v = be k (v / 256) ++ v % 256 ∷ []

of_be_from : ℕ → List ℕ → ℕ
of_be_from acc [] = acc
of_be_from acc (b ∷ bs) = of_be_from (acc * 256 + b) bs

unfoldable pub of_be : List ℕ → ℕ
unfolding of_be_from
of_be bs = of_be_from 0 bs

-- The bytes `buf[off .. off + len)`.
abbrev pub slice : ℕ → ℕ → List ℕ → List ℕ
slice off len buf = take len (drop off buf)

pub length-be : (k v : ℕ) → length (be k v) ≡ k
unfolding be
length-be zero v = refl
length-be (suc k) v =
    omega (arith, length-append (be k (v / 256)) (v % 256 ∷ []), length-be k (v / 256))

of_be_from-append :
    (acc : ℕ) (xs ys : List ℕ) → of_be_from acc (xs ++ ys) ≡ of_be_from (of_be_from acc xs) ys
unfolding of_be_from
of_be_from-append acc [] ys = refl
of_be_from-append acc (x ∷ xs) ys = of_be_from-append (acc * 256 + x) xs ys

of_be-append_one : (xs : List ℕ) (b : ℕ) → of_be (xs ++ b ∷ []) ≡ of_be xs * 256 + b
unfolding of_be
of_be-append_one xs b = of_be_from-append 0 xs (b ∷ [])

pub of_be-be : (k v : ℕ) → v < 256 ^ k → of_be (be k v) ≡ v
unfolding be
of_be-be zero v h = unfold of_be in omega arith
of_be-be (suc k) v h =
    of_be-append_one (be k (v / 256)) (v % 256)
    ∙ omega (arith, of_be-be k (v / 256) (omega (arith, pow256 k)))
  where
    pow256 : (j : ℕ) → 256 ^ suc j ≡ 256 * 256 ^ j
    pow256 j = omega arith
