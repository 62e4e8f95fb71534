-- ===== src/Storage/Table/Lookup.antt =====
-- What a search of the hash table finds.
use objmapper.Base.{
  ℕ, ◌≡◌, refl, sym, ap, ◌∙◌, ◌↔◌, ◌⊎◌, inl, inr, true, false, ◌&&◌, none, some, List, [], ◌∷◌,
  ◌==◌, ==_iff, Bool-cases, Option-cases,
}
use objmapper.Storage.Types.{HashEntry, Slot, Storage}
use objmapper.Storage.Table.{slot_holds, hash_uri, chain, find_entry, find_slot}

-- A chain has an entry of the hash for the slot.
abbrev pub Listed : ℕ → ℕ → List HashEntry → Type 0
Listed hash i [] = ⊥
Listed hash i (entry ∷ next) = ((entry.hash ≡ hash) × (entry.slot_index ≡ i)) ⊎ Listed hash i next

find_entry_sound :
    (objects : List Slot) (uri : List ℕ) (hash i : ℕ) (entries : List HashEntry)
    → find_entry objects uri hash entries ≡ some i
    → slot_holds objects i uri ≡ true
unfolding find_entry
find_entry_sound objects uri hash i [] e = cc
find_entry_sound objects uri hash i (entry ∷ next) e = elim (Bool-cases (entry.hash == hash)) [
  | inr other ↦ find_entry_sound objects uri hash i next (rw other at e)
  | inl same ↦ elim (Bool-cases (slot_holds objects entry.slot_index uri)) [
    | inr missed ↦ find_entry_sound objects uri hash i next (rw (same, missed) at e)
    | inl kept ↦
        let found : some entry.slot_index ≡ some i = rw (same, kept) at e in
        let at_i : entry.slot_index ≡ i = cc in ap (λ j. slot_holds objects j uri) (sym at_i) ∙ kept
  ]
]

find_entry_complete :
    (objects : List Slot) (uri : List ℕ) (hash i : ℕ) (entries : List HashEntry)
    → Listed hash i entries
    → slot_holds objects i uri ≡ true
    → (j : ℕ) × (find_entry objects uri hash entries ≡ some j)
unfolding find_entry
find_entry_complete objects uri hash i [] l h = absurd l
find_entry_complete objects uri hash i (entry ∷ next) (inl (same, at_i)) h =
    let test : (entry.hash == hash) ≡ true = (==_iff entry.hash hash).1 same in
    let held : slot_holds objects entry.slot_index uri ≡ true =
      ap (λ j. slot_holds objects j uri) at_i ∙ h in
    (entry.slot_index, rw (test, held) refl)
find_entry_complete objects uri hash i (entry ∷ next) (inr later) h =
    elim (Bool-cases ((entry.hash == hash) && slot_holds objects entry.slot_index uri)) [
      | inl kept ↦ (entry.slot_index, rw kept refl)
      | inr missed ↦
          let rest = find_entry_complete objects uri hash i next later h in
          (rest.0, rw missed rest.1)
    ]

-- The table finds every object, and no URI has two.
pub record IsIndexed (s : Storage) : Type 0 where
  pub listed :
      (i : ℕ) (uri : List ℕ)
      → slot_holds s.objects i uri ≡ true
      → Listed (hash_uri uri) i (chain s (hash_uri uri))
  pub unique :
      (i j : ℕ) (uri : List ℕ)
      → slot_holds s.objects i uri ≡ true
      → slot_holds s.objects j uri ≡ true
      → i ≡ j

pub find_slot-held :
    (s : Storage) (uri : List ℕ) (i : ℕ)
    → find_slot s uri ≡ some i
    → slot_holds s.objects i uri ≡ true
unfolding find_slot
find_slot-held s uri i e = find_entry_sound s.objects uri (hash_uri uri) i _ e

-- A search finds exactly the slot that holds the URI.
pub find_slot_iff :
    (s : Storage) (uri : List ℕ) (i : ℕ)
    → IsIndexed s
    → (find_slot s uri ≡ some i) ↔ (slot_holds s.objects i uri ≡ true)
unfolding find_slot
find_slot_iff s uri i ok = (
  find_slot-held s uri i,
  λ held.
      let found =
        find_entry_complete s.objects uri (hash_uri uri) i _ (ok.listed i uri held) held in
      let there = find_slot-held s uri found.0 found.1 in
      found.1 ∙ ap some (ok.unique found.0 i uri there held),
)

-- A search that fails: no slot holds the URI.
pub find_slot-none :
    (s : Storage) (uri : List ℕ) (i : ℕ)
    → IsIndexed s
    → find_slot s uri ≡ none
    → slot_holds s.objects i uri ≡ false
find_slot-none s uri i ok e = elim (Bool-cases (slot_holds s.objects i uri)) [
  | inl held ↦ let found = (find_slot_iff s uri i ok).1 held in cc
  | inr other ↦ other
]

-- Two stores with the same held URIs find the same.
pub find_slot_same :
    (s t : Storage) (uri : List ℕ)
    → IsIndexed s
    → IsIndexed t
    → ((i : ℕ) → slot_holds t.objects i uri ≡ slot_holds s.objects i uri)
    → find_slot t uri ≡ find_slot s uri
find_slot_same s t uri s_ok t_ok same = elim (Option-cases (find_slot s uri)) [
  | inr found ↦
      (find_slot_iff t uri found.0 t_ok).1 (same found.0 ∙ find_slot-held s uri found.0 found.1)
      ∙ sym found.1
  | inl absent ↦ elim (Option-cases (find_slot t uri)) [
    | inl e ↦ e ∙ sym absent
    | inr found ↦
        let held : slot_holds s.objects found.0 uri ≡ true =
          sym (same found.0) ∙ find_slot-held t uri found.0 found.1 in
        let not_held = find_slot-none s uri found.0 s_ok absent in cc
  ]
]
