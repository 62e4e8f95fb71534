-- ===== src/Base/Distinct.antt =====
-- Lists of different numbers.
use Prim.Native.Nat.{ℕ, zero, suc, ◌≤◌, ◌<◌}
use mathlib.Core.Path.{◌≡◌, refl, sym, ap, ◌∙◌}
use mathlib.Core.Logic.{◌≢◌, inl, inr}
use mathlib.Core.List.{List, [], ◌∷◌}
use native.Mathlib.Omega.{arith}
use objmapper.Base.Lists.{length}
use objmapper.Base.Tests.{◌==◌, ==_iff, Bool-cases, if◌then◌else◌, if_eq_true, if_eq_false}

abbrev pub Outside : ℕ → List ℕ → Type 0
Outside i [] = Unit
Outside i (j ∷ js) = (i ≢ j) × Outside i js

abbrev pub Distinct : List ℕ → Type 0
Distinct [] = Unit
Distinct (i ∷ is) = Outside i is × Distinct is

abbrev pub Below : ℕ → List ℕ → Type 0
Below n [] = Unit
Below n (i ∷ is) = (i < n) × Below n is

unfoldable pub without : ℕ → List ℕ → List ℕ
without n [] = []
without n (i ∷ is) = let rest = without n is in if i == n then rest else i ∷ rest

pub without_head : (n : ℕ) (is : List ℕ) → without n (n ∷ is) ≡ without n is
unfolding without
without_head n is = if_eq_true (n == n) _ _ ((==_iff n n).1 refl)

pub without_next : (n i : ℕ) (is : List ℕ) → i ≢ n → without n (i ∷ is) ≡ i ∷ without n is
unfolding without
without_next n i is ne = if_eq_false (i == n) _ _ (ground arith)

pub without-Outside_other : (n : ℕ) (is : List ℕ) → Outside n is → without n is ≡ is
unfolding without
without-Outside_other n [] out = refl
without-Outside_other n (i ∷ is) out =
    without_next n i is (λ e. out.0 (sym e)) ∙ ap (◌∷◌ i) (without-Outside_other n is out.1)

pub Outside-without : (n i : ℕ) (is : List ℕ) → Outside i is → Outside i (without n is)
unfolding without
Outside-without n i [] out = tt
Outside-without n i (j ∷ is) out = elim (Bool-cases (j == n)) [
  | inl same ↦ rw same (Outside-without n i is out.1)
  | inr other ↦ rw other (out.0, Outside-without n i is out.1)
]

pub Distinct-without : (n : ℕ) (is : List ℕ) → Distinct is → Distinct (without n is)
unfolding without
Distinct-without n [] d = tt
Distinct-without n (j ∷ is) d = elim (Bool-cases (j == n)) [
  | inl same ↦ rw same (Distinct-without n is d.1)
  | inr other ↦ rw other (Outside-without n j is d.0, Distinct-without n is d.1)
]

Below-without : (n : ℕ) (is : List ℕ) → Below (suc n) is → Below n (without n is)
unfolding without
Below-without n [] b = tt
Below-without n (j ∷ is) b = elim (Bool-cases (j == n)) [
  | inl same ↦ rw same (Below-without n is b.1)
  | inr other ↦ let less : j < n = ground (arith, b.0) in rw other (less, Below-without n is b.1)
]

length-without : (n : ℕ) (is : List ℕ) → Distinct is → length is ≤ suc (length (without n is))
unfolding without
length-without n [] d = omega arith
length-without n (j ∷ is) d = elim (Bool-cases (j == n)) [
  | inl same ↦
      let jn : j ≡ n = (==_iff j n).0 same in
      let rest = without-Outside_other j is d.0 in
      rw same (omega (arith, ap length (ap (λ k. without k is) (sym jn) ∙ rest)))
  | inr other ↦ rw other (omega (arith, length-without n is d.1))
]

-- There are no more than n different numbers below n.
pub Distinct-le : (n : ℕ) (is : List ℕ) → Distinct is → Below n is → length is ≤ n
Distinct-le zero [] d b = omega arith
Distinct-le zero (i ∷ is) d b = absurd (omega (arith, b.0))
Distinct-le (suc n) is d b =
    let fewer = Distinct-le n (without n is) (Distinct-without n is d) (Below-without n is b) in
    omega (arith, fewer, length-without n is d)
