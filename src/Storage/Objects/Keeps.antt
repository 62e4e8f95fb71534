-- ===== src/Storage/Objects/Keeps.antt =====
-- Operations that change one slot, but not which URIs the slots hold.
use objmapper.Base.{
  ℕ, zero, suc, ◌+◌, ◌<◌, ◌≡◌, ◌≢◌, refl, sym, ap, subst, ◌∙◌, inl, inr, Bool, ◌&&◌, Option, none,
  some, List, [], ◌∷◌, get_elem?, set, length, length-set, get_elem?-set_self, get_elem?-set_ne,
  ◌==◌, ==_iff, Bool-cases, Option-cases, bytes_eq, if◌then◌else◌, arith,
}
use objmapper.Storage.Types.{Slot, Call, Storage}
use objmapper.Storage.Table.{holds, held_by, slot_holds}
use objmapper.Storage.Objects.{update_slot, call}

-- The number of slots in use.
unfoldable pub count_used : List Slot → ℕ
count_used [] = 0
count_used (slot ∷ slots) = (if slot.in_use then 1 else 0) + count_used slots

pub get_elem?-below {ℓ} :
    {A : Type ℓ} (xs : List A) (i : ℕ) (x : A) → get_elem? xs i ≡ some x → i < length xs
get_elem?-below [] i x e = cc
get_elem?-below (y ∷ ys) zero x e = omega arith
get_elem?-below (y ∷ ys) (suc i) x e = let below = get_elem?-below ys i x e in omega arith

-- One slot is replaced by another.
pub count_used-set :
    (slots : List Slot) (i : ℕ) (old new : Slot)
    → get_elem? slots i ≡ some old
    → count_used (set slots i new) + (if old.in_use then 1 else 0)
      ≡ count_used slots + (if new.in_use then 1 else 0)
unfolding count_used
count_used-set [] i old new e = cc
count_used-set (slot ∷ slots) zero old new e = let same : slot ≡ old = cc in rw same (omega arith)
count_used-set (slot ∷ slots) (suc i) old new e =
    let rest = count_used-set slots i old new e in omega arith

pub slot_holds-set_self :
    (objects : List Slot) (i : ℕ) (new : Slot) (uri : List ℕ)
    → i < length objects
    → slot_holds (set objects i new) i uri ≡ holds new uri
unfolding slot_holds
slot_holds-set_self objects i new uri h =
    ap (λ o. held_by o uri) (get_elem?-set_self objects i new h)

pub slot_holds-set_ne :
    (objects : List Slot) (i j : ℕ) (new : Slot) (uri : List ℕ)
    → i ≢ j
    → slot_holds (set objects i new) j uri ≡ slot_holds objects j uri
unfolding slot_holds
slot_holds-set_ne objects i j new uri ne =
    ap (λ o. held_by o uri) (get_elem?-set_ne objects i j new ne)

slot_holds-set_same :
    (objects : List Slot) (i j : ℕ) (old new : Slot) (uri : List ℕ)
    → get_elem? objects i ≡ some old
    → holds new uri ≡ holds old uri
    → slot_holds (set objects i new) j uri ≡ slot_holds objects j uri
unfolding slot_holds
slot_holds-set_same objects i j old new uri e same = elim (Bool-cases (i == j)) [
  | inr other ↦ slot_holds-set_ne objects i j new uri (ground arith)
  | inl self ↦
      let ij : i ≡ j = (==_iff i j).0 self in
      subst (λ k. slot_holds (set objects i new) k uri ≡ slot_holds objects k uri) ij
        (slot_holds-set_self objects i new uri (get_elem?-below objects i old e)
          ∙ same
          ∙ ap (λ o. held_by o uri) (sym e))
]

-- What an operation on the slot i leaves as it was.
pub record Keeps (i : ℕ) (s t : Storage) : Type 0 where
  pub others : (j : ℕ) → i ≢ j → get_elem? t.objects j ≡ get_elem? s.objects j
  pub held : (j : ℕ) (uri : List ℕ) → slot_holds t.objects j uri ≡ slot_holds s.objects j uri
  pub slots : length t.objects ≡ length s.objects
  pub used : count_used t.objects ≡ count_used s.objects
  pub table : t.hash_table ≡ s.hash_table
  pub hash_size : t.hash_size ≡ s.hash_size
  pub capacity : t.capacity ≡ s.capacity
  pub count : t.count ≡ s.count

pub Keeps-trans : {i : ℕ} {s t u : Storage} → Keeps i s t → Keeps i t u → Keeps i s u
Keeps-trans k l = record {
  others = λ j ne. l.others j ne ∙ k.others j ne;
  held = λ j uri. l.held j uri ∙ k.held j uri;
  slots = l.slots ∙ k.slots;
  used = l.used ∙ k.used;
  table = l.table ∙ k.table;
  hash_size = l.hash_size ∙ k.hash_size;
  capacity = l.capacity ∙ k.capacity;
  count = l.count ∙ k.count;
}

pub Keeps-call : (i : ℕ) (made : Call) (s : Storage) → Keeps i s (call made s)
Keeps-call i made s = record {
  others = λ j ne. refl;
  held = λ j uri. refl;
  slots = refl;
  used = refl;
  table = refl;
  hash_size = refl;
  capacity = refl;
  count = refl;
}

-- A change of a slot that keeps its use and its URI.
abbrev SameObject : (Slot → Slot) → Type 0
SameObject change =
    (slot : Slot) → ((change slot).in_use ≡ slot.in_use) × ((change slot).uri ≡ slot.uri)

updated : ℕ → (Slot → Slot) → List Slot → List Slot
updated i change objects = elim (get_elem? objects i) [
  | none ↦ objects
  | some slot ↦ set objects i (change slot)
]

updated-none :
    (i : ℕ) (change : Slot → Slot) (objects : List Slot)
    → get_elem? objects i ≡ none
    → updated i change objects ≡ objects
unfolding updated
updated-none i change objects e =
    ap (λ (o : Option Slot). elim o [ none ↦ objects | some x ↦ set objects i (change x) ]) e

updated-some :
    (i : ℕ) (change : Slot → Slot) (objects : List Slot) (slot : Slot)
    → get_elem? objects i ≡ some slot
    → updated i change objects ≡ set objects i (change slot)
unfolding updated
updated-some i change objects slot e =
    ap (λ (o : Option Slot). elim o [ none ↦ objects | some x ↦ set objects i (change x) ]) e

updated_others :
    (i j : ℕ) (change : Slot → Slot) (objects : List Slot)
    → i ≢ j
    → get_elem? (updated i change objects) j ≡ get_elem? objects j
updated_others i j change objects ne = elim (Option-cases (get_elem? objects i)) [
  | inl e ↦ ap (λ xs. get_elem? xs j) (updated-none i change objects e)
  | inr e ↦
      ap (λ xs. get_elem? xs j) (updated-some i change objects e.0 e.1)
      ∙ get_elem?-set_ne objects i j _ ne
]

updated_slots :
    (i : ℕ) (change : Slot → Slot) (objects : List Slot)
    → length (updated i change objects) ≡ length objects
updated_slots i change objects = elim (Option-cases (get_elem? objects i)) [
  | inl e ↦ ap length (updated-none i change objects e)
  | inr e ↦ ap length (updated-some i change objects e.0 e.1) ∙ length-set objects i _
]

updated_used :
    (i : ℕ) (change : Slot → Slot) (objects : List Slot)
    → SameObject change
    → count_used (updated i change objects) ≡ count_used objects
updated_used i change objects same = elim (Option-cases (get_elem? objects i)) [
  | inl e ↦ ap count_used (updated-none i change objects e)
  | inr e ↦
      let moved = count_used-set objects i e.0 (change e.0) e.1 in
      let as_before = ap {B = ℕ} (λ (b : Bool). if b then 1 else 0) (same e.0).0 in
      ap count_used (updated-some i change objects e.0 e.1) ∙ omega (arith, moved, as_before)
]

holds_same :
    (change : Slot → Slot) (slot : Slot) (uri : List ℕ)
    → SameObject change
    → holds (change slot) uri ≡ holds slot uri
unfolding holds
holds_same change slot uri same =
    ap (λ b. b && bytes_eq (change slot).uri uri) (same slot).0
    ∙ ap (λ u. slot.in_use && bytes_eq u uri) (same slot).1

updated_held :
    (i j : ℕ) (change : Slot → Slot) (objects : List Slot) (uri : List ℕ)
    → SameObject change
    → slot_holds (updated i change objects) j uri ≡ slot_holds objects j uri
updated_held i j change objects uri same = elim (Option-cases (get_elem? objects i)) [
  | inl e ↦ ap (λ xs. slot_holds xs j uri) (updated-none i change objects e)
  | inr e ↦
      ap (λ xs. slot_holds xs j uri) (updated-some i change objects e.0 e.1)
      ∙ slot_holds-set_same objects i j e.0 (change e.0) uri e.1 (holds_same change e.0 uri same)
]

pub Keeps-update_slot :
    (i : ℕ) (change : Slot → Slot) (s : Storage)
    → SameObject change
    → Keeps i s (update_slot i change s)
unfolding updated
Keeps-update_slot i change s same = record {
  others = λ j ne. updated_others i j change s.objects ne;
  held = λ j uri. updated_held i j change s.objects uri same;
  slots = updated_slots i change s.objects;
  used = updated_used i change s.objects same;
  table = refl;
  hash_size = refl;
  capacity = refl;
  count = refl;
}

pub update_slot_at :
    (i : ℕ) (change : Slot → Slot) (s : Storage) (slot : Slot)
    → get_elem? s.objects i ≡ some slot
    → get_elem? (update_slot i change s).objects i ≡ some (change slot)
unfolding updated
update_slot_at i change s slot there =
    ap (λ xs. get_elem? xs i) (updated-some i change s.objects slot there)
    ∙ get_elem?-set_self s.objects i _ (get_elem?-below s.objects i slot there)

pub update_slot_others :
    (i : ℕ) (change : Slot → Slot) (s : Storage) (j : ℕ)
    → i ≢ j
    → get_elem? (update_slot i change s).objects j ≡ get_elem? s.objects j
unfolding updated
update_slot_others i change s j ne = updated_others i j change s.objects ne
