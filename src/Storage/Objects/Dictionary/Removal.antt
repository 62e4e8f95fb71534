-- ===== src/Storage/Objects/Dictionary/Removal.antt =====
-- What storage_get_info says after storage_remove.
use objmapper.Base.{
  ℕ, ◌≡◌, ◌≢◌, refl, sym, ap, subst, ◌∙◌, inl, inr, true, false, Option, none, some, List, ◌==◌,
  ==_iff, Bool-cases, Option-cases, arith,
}
use objmapper.Storage.Types.{Storage, Info, Result, done, failed, enoent}
use objmapper.Storage.Table.{slot_holds, find_slot}
use objmapper.Storage.Table.Lookup.{find_slot-held, find_slot_same}
use objmapper.Storage.Objects.{storage_get_info, storage_remove, release_slot, drop_slot, slot_at}
use objmapper.Storage.Objects.Keeps.{Keeps}
use objmapper.Storage.Objects.Consistent.{IsConsistent, Keeps-IsConsistent}
use objmapper.Storage.Objects.Remove.{
  Keeps-release_slot, drop_slot-own, drop_slot-others, drop_slot-before, drop_slot-IsConsistent,
  drop_slot-elsewhere,
}
use objmapper.Storage.Objects.Dictionary.{
  info_at, get_info_at, get_info_same, holds_one, other_slot,
}

abbrev removed_at : List ℕ → Storage → Option ℕ → Result (Unit {0}) × Storage
removed_at uri s none = (failed enoent, s)
removed_at uri s (some i) = (done tt, drop_slot i (release_slot (slot_at s i) s))

remove_at : (uri : List ℕ) (s : Storage) → storage_remove uri s ≡ removed_at uri s (find_slot s uri)
unfolding storage_remove
remove_at uri s =
    elim (find_slot s uri)
      as (λ o.
        elim o [
          | none ↦ (failed enoent, s)
          | some i ↦ (done tt, drop_slot i (release_slot (slot_at s i) s))
        ]
        ≡ removed_at uri s o) [ none ↦ refl | some i ↦ refl ]

-- What a removal of a URI that is found leaves.
pub storage_remove-done :
    (uri : List ℕ) (s : Storage) (i : ℕ)
    → find_slot s uri ≡ some i
    → storage_remove uri s ≡ (done tt, drop_slot i (release_slot (slot_at s i) s))
storage_remove-done uri s i found = remove_at uri s ∙ ap (removed_at uri s) found

pub storage_remove-absent :
    (uri : List ℕ) (s : Storage)
    → find_slot s uri ≡ none
    → storage_remove uri s ≡ (failed enoent, s)
storage_remove-absent uri s absent = remove_at uri s ∙ ap (removed_at uri s) absent

-- What storage_remove leaves of the slots' URIs.
remove_held :
    (uri : List ℕ) (s : Storage) (i j : ℕ) (u : List ℕ)
    → IsConsistent s
    → find_slot s uri ≡ some i
    → uri ≢ u
    → slot_holds (drop_slot i (release_slot (slot_at s i) s)).objects j u ≡ slot_holds s.objects j u
remove_held uri s i j u ok found ne =
    let k = Keeps-release_slot i (slot_at s i) s in
    let released = release_slot (slot_at s i) s in
    let released_ok = Keeps-IsConsistent k ok in
    let held = k.held i uri ∙ find_slot-held s uri i found in
    elim (Bool-cases (i == j)) [
      | inr other ↦ drop_slot-others released uri i released_ok held j u (ground arith) ∙ k.held j u
      | inl self ↦
          let ij : i ≡ j = (==_iff i j).0 self in
          subst (λ l. slot_holds (drop_slot i released).objects l u ≡ slot_holds s.objects l u) ij
            (drop_slot-own released uri i released_ok held u
              ∙ sym (not_held s i uri u ne (find_slot-held s uri i found)))
    ]
  where
    not_held :
        (s : Storage) (i : ℕ) (uri u : List ℕ)
        → uri ≢ u
        → slot_holds s.objects i uri ≡ true
        → slot_holds s.objects i u ≡ false
    not_held s i uri u ne held = elim (Bool-cases (slot_holds s.objects i u)) [
      | inr missed ↦ missed
      | inl also ↦ absurd (ne (holds_one s.objects i uri u held also))
    ]

pub storage_remove-IsConsistent :
    (uri : List ℕ) (s : Storage) → IsConsistent s → IsConsistent (storage_remove uri s).1
storage_remove-IsConsistent uri s ok = elim (Option-cases (find_slot s uri)) [
  | inl absent ↦
      subst (λ (r : Result (Unit {0}) × Storage). IsConsistent r.1)
        (sym (storage_remove-absent uri s absent)) ok
  | inr found ↦
      let i = found.0 in
      let k = Keeps-release_slot i (slot_at s i) s in
      subst (λ (r : Result (Unit {0}) × Storage). IsConsistent r.1)
        (sym (storage_remove-done uri s i found.1))
        (drop_slot-IsConsistent (release_slot (slot_at s i) s) uri i (Keeps-IsConsistent k ok)
          (k.held i uri ∙ find_slot-held s uri i found.1))
]

-- What a removal returns, by what was known of the URI.
abbrev pub outcome : Result Info → Result (Unit {0})
outcome (done info) = done tt
outcome (failed e) = failed e

removed_absent :
    (uri : List ℕ) (s : Storage) (i : ℕ)
    → IsConsistent s
    → find_slot s uri ≡ some i
    → find_slot (drop_slot i (release_slot (slot_at s i) s)) uri ≡ none
removed_absent uri s i ok found = elim (Option-cases (find_slot (drop_slot i released) uri)) [
  | inl absent ↦ absent
  | inr again ↦
      let j = again.0 in
      let before =
        drop_slot-before released uri i released_ok held j uri
          (find_slot-held (drop_slot i released) uri j again.1) in
      absurd (
        before.0 (
          ok.indexed.unique i j uri (find_slot-held s uri i found) (sym (k.held j uri) ∙ before.1)))
]
  where
    released : Storage
    released = release_slot (slot_at s i) s

    k : Keeps i s released
    k = Keeps-release_slot i (slot_at s i) s

    released_ok : IsConsistent released
    released_ok = Keeps-IsConsistent k ok

    held : slot_holds released.objects i uri ≡ true
    held = k.held i uri ∙ find_slot-held s uri i found

-- A removal of a URI that is there succeeds, and of another fails with ENOENT; either way the URI
-- is then not there. The storage is consistent.
pub storage_get_info-storage_remove :
    (uri : List ℕ) (s : Storage)
    → IsConsistent s
    → ((storage_remove uri s).0 ≡ outcome (storage_get_info uri s))
      × (storage_get_info uri (storage_remove uri s).1 ≡ failed enoent)
storage_get_info-storage_remove uri s ok = elim (Option-cases (find_slot s uri)) [
  | inl absent ↦
      let unknown = get_info_at s uri ∙ ap (info_at s) absent in
      let ran = storage_remove-absent uri s absent in
      (
        ap (λ (r : Result (Unit {0}) × Storage). r.0) ran ∙ sym (ap outcome unknown),
        ap (λ (r : Result (Unit {0}) × Storage). storage_get_info uri r.1) ran ∙ unknown,
      )
  | inr found ↦
      let i = found.0 in
      let after = drop_slot i (release_slot (slot_at s i) s) in
      let known = get_info_at s uri ∙ ap (info_at s) found.1 in
      let ran = storage_remove-done uri s i found.1 in
      (
        ap (λ (r : Result (Unit {0}) × Storage). r.0) ran ∙ sym (ap outcome known),
        ap (λ (r : Result (Unit {0}) × Storage). storage_get_info uri r.1) ran
            ∙ get_info_at after uri
            ∙ ap (info_at after) (removed_absent uri s i ok found.1),
      )
]

-- A removal leaves the information on every other URI as it was, in a consistent storage.
pub storage_get_info-storage_remove_other :
    (uri : List ℕ) (s : Storage) (u : List ℕ)
    → IsConsistent s
    → uri ≢ u
    → storage_get_info u (storage_remove uri s).1 ≡ storage_get_info u s
storage_get_info-storage_remove_other uri s u ok ne = elim (Option-cases (find_slot s uri)) [
  | inl absent ↦
      ap (λ (r : Result (Unit {0}) × Storage). storage_get_info u r.1)
        (storage_remove-absent uri s absent)
  | inr found ↦
      let i = found.0 in
      let after = drop_slot i (release_slot (slot_at s i) s) in
      let k = Keeps-release_slot i (slot_at s i) s in
      let held = find_slot-held s uri i found.1 in
      let after_ok =
        drop_slot-IsConsistent (release_slot (slot_at s i) s) uri i (Keeps-IsConsistent k ok)
          (k.held i uri ∙ held) in
      ap (λ (r : Result (Unit {0}) × Storage). storage_get_info u r.1)
        (storage_remove-done uri s i found.1)
      ∙ get_info_same s after u
          (find_slot_same s after u ok.indexed after_ok.indexed
            (λ j. remove_held uri s i j u ok found.1 ne))
          (λ j there.
            let apart = other_slot s i j uri u ne held (find_slot-held s u j there) in
            drop_slot-elsewhere i j (release_slot (slot_at s i) s) apart ∙ k.others j apart)
]
