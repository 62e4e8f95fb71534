-- ===== src/Storage/Objects/Remove.antt =====
-- storage_remove gives up the slot that it found.
use objmapper.Base.{
  ℕ, ◌+◌, ◌≡◌, ◌≢◌, refl, sym, ap, subst, ◌∙◌, inl, inr, Bool, true, false, ◌&&◌, Option, none,
  some, List, [], ◌∷◌, length, get_elem?, set, length-set, ◌==◌, ==_iff, Bool-cases, Option-cases,
  bytes_eq, if◌then◌else◌, arith,
}
use objmapper.Storage.Types.{Storage, Slot}
use objmapper.Storage.Table.{holds, held_by, slot_holds, chain}
use objmapper.Storage.Objects.{
  close_fd, unmap_slot, unlink_cache, release_slot, drop_slot, decrement,
}
use objmapper.Storage.Objects.Keeps.{
  Keeps, Keeps-trans, Keeps-call, count_used, count_used-set, get_elem?-below, slot_holds-set_self,
  slot_holds-set_ne, update_slot_others,
}
use objmapper.Storage.Objects.Writes.{Keeps-self, Keeps-cached}
use objmapper.Storage.Objects.Consistent.{IsConsistent}

Keeps-close_fd : (i : ℕ) (fd : Option ℕ) (s : Storage) → Keeps i s (close_fd fd s)
Keeps-close_fd i none s = Keeps-self i s
Keeps-close_fd i (some fd) s = Keeps-call i _ s

Keeps-unmap_slot : (i : ℕ) (p : Option ℕ) (size : ℕ) (s : Storage) → Keeps i s (unmap_slot p size s)
Keeps-unmap_slot i none size s = Keeps-self i s
Keeps-unmap_slot i (some p) size s = Keeps-cached i _ s _ (Keeps-call i _ _)

Keeps-unlink_cache : (i : ℕ) (path : List ℕ) (s : Storage) → Keeps i s (unlink_cache path s)
Keeps-unlink_cache i [] s = Keeps-self i s
Keeps-unlink_cache i (c ∷ cs) s = Keeps-call i _ s

pub Keeps-release_slot : (i : ℕ) (slot : Slot) (s : Storage) → Keeps i s (release_slot slot s)
unfolding release_slot
Keeps-release_slot i slot s = Keeps-trans (Keeps-close_fd i slot.backing_fd s) (
    Keeps-trans (Keeps-unmap_slot i slot.cache_mmap slot.size _)
      (Keeps-trans (Keeps-call i _ _) (Keeps-unlink_cache i slot.cache_path _)))

abbrev dropped : Slot → Slot
dropped slot = record slot { in_use = false }

pub drop_slot-elsewhere :
    (i j : ℕ) (s : Storage) → i ≢ j → get_elem? (drop_slot i s).objects j ≡ get_elem? s.objects j
unfolding drop_slot
drop_slot-elsewhere i j s ne =
    update_slot_others i dropped (record s { count = decrement s.count }) j ne

-- A slot that holds a URI is in the array, and in use.
pub held_slot :
    (objects : List Slot) (i : ℕ) (uri : List ℕ)
    → slot_holds objects i uri ≡ true
    → (slot : Slot) × ((get_elem? objects i ≡ some slot) × (slot.in_use ≡ true))
unfolding slot_holds holds
held_slot objects i uri held = elim (Option-cases (get_elem? objects i)) [
  | inl absent ↦ let missed : false ≡ true = sym (ap (λ o. held_by o uri) absent) ∙ held in cc
  | inr there ↦
      let test : (there.0.in_use && bytes_eq there.0.uri uri) ≡ true =
        sym (ap (λ o. held_by o uri) there.1) ∙ held in
      (there.0, (there.1, both there.0.in_use _ test))
]
  where
    both : (a b : Bool) → (a && b) ≡ true → a ≡ true
    both true b e = refl
    both false b e = cc

module _ (s : Storage) (uri : List ℕ) (i : ℕ) (ok : IsConsistent s)
    (held : slot_holds s.objects i uri ≡ true) where
  there : (slot : Slot) × ((get_elem? s.objects i ≡ some slot) × (slot.in_use ≡ true))
  there = held_slot s.objects i uri held

  drop_slot-objects : (drop_slot i s).objects ≡ set s.objects i (dropped there.0)
  unfolding drop_slot chain
  drop_slot-objects =
      ap (λ (o : Option Slot). elim o [ none ↦ s.objects | some x ↦ set s.objects i (dropped x) ])
        there.1.0

  pub drop_slot-own : (u : List ℕ) → slot_holds (drop_slot i s).objects i u ≡ false
  unfolding holds
  drop_slot-own u =
      ap (λ xs. slot_holds xs i u) drop_slot-objects
      ∙ slot_holds-set_self s.objects i (dropped there.0) u
          (get_elem?-below s.objects i there.0 there.1.0)

  pub drop_slot-others :
      (j : ℕ) (u : List ℕ)
      → i ≢ j
      → slot_holds (drop_slot i s).objects j u ≡ slot_holds s.objects j u
  drop_slot-others j u ne =
      ap (λ xs. slot_holds xs j u) drop_slot-objects
      ∙ slot_holds-set_ne s.objects i j (dropped there.0) u ne

  -- What is held after the removal was held before it, in another slot.
  pub drop_slot-before :
      (j : ℕ) (u : List ℕ)
      → slot_holds (drop_slot i s).objects j u ≡ true
      → (i ≢ j) × (slot_holds s.objects j u ≡ true)
  drop_slot-before j u now = elim (Bool-cases (i == j)) [
    | inl self ↦
        let ij : i ≡ j = (==_iff i j).0 self in
        let own : slot_holds (drop_slot i s).objects j u ≡ false =
          subst (λ k. slot_holds (drop_slot i s).objects k u ≡ false) ij (drop_slot-own u) in
        cc
    | inr other ↦ let ne : i ≢ j = ground arith in (ne, sym (drop_slot-others j u ne) ∙ now)
  ]

  drop_slot-used : count_used (drop_slot i s).objects + 1 ≡ count_used s.objects
  drop_slot-used =
      let changed = count_used-set s.objects i there.0 (dropped there.0) there.1.0 in
      let one_before = ap {B = ℕ} (λ (b : Bool). if b then 1 else 0) there.1.1 in
      let now = ap count_used drop_slot-objects in omega (arith, changed, one_before, now)

  drop_slot-counted : decrement s.count ≡ count_used (drop_slot i s).objects
  drop_slot-counted = let counted = ok.counted in let used = drop_slot-used in ground arith

  pub drop_slot-IsConsistent : IsConsistent (drop_slot i s)
  unfolding drop_slot chain
  drop_slot-IsConsistent = record {
    slots = ap length drop_slot-objects ∙ length-set s.objects i _ ∙ ok.slots;
    buckets = ok.buckets;
    sized = ok.sized;
    counted = drop_slot-counted;
    indexed = record {
      listed = λ j u now. ok.indexed.listed j u (drop_slot-before j u now).1;
      unique = λ j k u first second.
          ok.indexed.unique j k u (drop_slot-before j u first).1 (drop_slot-before k u second).1;
    };
  }
