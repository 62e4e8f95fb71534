-- ===== src/Storage/Objects/Free.antt =====
-- The scan for a free slot in storage_put.
use objmapper.Base.{
  ℕ, suc, ◌<◌, ◌≡◌, refl, sym, ap, subst, ◌∙◌, inl, inr, Bool, true, false, Option, none, some,
  List, [], ◌∷◌, length, get_elem?, Bool-cases, Option-cases, if◌then◌else◌, arith, if_eq_true,
  if_eq_false,
}
use objmapper.Storage.Types.{Slot}
use objmapper.Storage.Objects.{free_index}
use objmapper.Storage.Objects.Keeps.{count_used}

abbrev shifted : Option ℕ → Option ℕ
shifted none = none
shifted (some i) = some (suc i)

free_index_free :
    (slot : Slot) (slots : List Slot) → slot.in_use ≡ false → free_index (slot ∷ slots) ≡ some 0
unfolding free_index
free_index_free slot slots free = if_eq_false slot.in_use _ _ free

free_index_taken :
    (slot : Slot) (slots : List Slot)
    → slot.in_use ≡ true
    → free_index (slot ∷ slots) ≡ shifted (free_index slots)
unfolding free_index
free_index_taken slot slots taken =
    if_eq_true slot.in_use _ _ taken
    ∙ elim (free_index slots) as (λ o. elim o [ none ↦ none | some i ↦ some (suc i) ] ≡ shifted o) [
      | none ↦ refl
      | some i ↦ refl
    ]

-- A slot that is not in use.
abbrev pub IsFree : List Slot → ℕ → Type 0
IsFree slots i = (slot : Slot) × ((get_elem? slots i ≡ some slot) × (slot.in_use ≡ false))

-- What the scan finds is a slot that is not in use.
pub free_index-IsFree : (slots : List Slot) (i : ℕ) → free_index slots ≡ some i → IsFree slots i
unfolding free_index
free_index-IsFree [] i e = cc
free_index-IsFree (slot ∷ slots) i e = elim (Bool-cases slot.in_use) [
  | inr free ↦
      let first : some 0 ≡ some i = sym (free_index_free slot slots free) ∙ e in
      let at_i : 0 ≡ i = cc in subst (IsFree (slot ∷ slots)) at_i (slot, (refl, free))
  | inl taken ↦
      let later : shifted (free_index slots) ≡ some i =
        sym (free_index_taken slot slots taken) ∙ e in
      elim (Option-cases (free_index slots)) [
        | inl absent ↦ absurd (unshifted (sym (ap shifted absent) ∙ later))
        | inr found ↦
            let moved : some (suc found.0) ≡ some i = sym (ap shifted found.1) ∙ later in
            let at_i : suc found.0 ≡ i = cc in
            let rest = free_index-IsFree slots found.0 found.1 in
            subst (IsFree (slot ∷ slots)) at_i (rest.0, rest.1)
      ]
]
  where
    unshifted : shifted none ≡ some i → ⊥
    unshifted p = cc

-- With fewer slots in use than slots, the scan finds one.
pub free_index-some :
    (slots : List Slot) → count_used slots < length slots → (i : ℕ) × (free_index slots ≡ some i)
unfolding count_used
free_index-some [] h = absurd (omega arith)
free_index-some (slot ∷ slots) h = elim (Bool-cases slot.in_use) [
  | inr free ↦ (0, free_index_free slot slots free)
  | inl taken ↦
      let one = ap {B = ℕ} (λ (b : Bool). if b then 1 else 0) taken in
      let rest = free_index-some slots (omega (arith, one, h)) in
      (suc rest.0, free_index_taken slot slots taken ∙ ap shifted rest.1)
]
