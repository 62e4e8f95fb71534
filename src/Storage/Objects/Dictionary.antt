-- ===== src/Storage/Objects/Dictionary.antt =====
-- The storage as a dictionary: what storage_get_info says after storage_put and storage_remove.
pub mod Removal
use objmapper.Base.{
  ℕ, ◌≤◌, ◌<◌, ◌≡◌, ◌≢◌, refl, sym, ap, subst, ◌∙◌, ◌⊎◌, inl, inr, Bool, true, false, ◌&&◌, Option,
  none, some, List, ◌∷◌, ◌++◌, take, length, get_elem?, ◌==◌, ==_iff, ==_self, Bool-cases,
  Option-cases, bytes_eq, bytes_eq→eq, if_eq_true, arith,
}
use objmapper.Storage.Types.{
  Storage, Slot, Answers, Info, Result, done, failed, enoent, cleared_slot, close, write,
  open_write,
}
use objmapper.Storage.Table.{holds, held_by, slot_holds, find_slot}
use objmapper.Storage.Table.Lookup.{find_slot-held, find_slot_iff, find_slot_same}
use objmapper.Storage.Objects.{
  storage_put, write_object, begin_write, end_write, update_slot, storage_get_info, info_of,
  storage_remove, release_slot, drop_slot, slot_at, call,
}
use objmapper.Storage.Objects.Keeps.{Keeps, update_slot_at}
use objmapper.Storage.Objects.Writes.{Keeps-write_object}
use objmapper.Storage.Objects.Consistent.{IsConsistent, Keeps-IsConsistent}
use objmapper.Storage.Objects.Remove.{
  Keeps-release_slot, held_slot, drop_slot-own, drop_slot-others, drop_slot-before,
  drop_slot-IsConsistent, drop_slot-elsewhere,
}
use objmapper.Storage.Objects.Put.{target, storage_put-full}

-- What storage_get_info makes of a search.
abbrev info_at : Storage → Option ℕ → Result Info
info_at s none = failed enoent
info_at s (some i) = done (info_of (slot_at s i))

get_info_at : (s : Storage) (uri : List ℕ) → storage_get_info uri s ≡ info_at s (find_slot s uri)
unfolding storage_get_info
get_info_at s uri =
    elim (find_slot s uri)
      as (λ o.
        elim o [ none ↦ failed enoent | some i ↦ done (info_of (slot_at s i)) ] ≡ info_at s o) [
          | none ↦ refl
          | some i ↦ refl
        ]

abbrev slot_or_cleared : Option Slot → Slot
slot_or_cleared none = cleared_slot
slot_or_cleared (some slot) = slot

slot_at_lem : (s : Storage) (i : ℕ) → slot_at s i ≡ slot_or_cleared (get_elem? s.objects i)
slot_at_lem s i =
    elim (get_elem? s.objects i)
      as (λ o. elim o [ none ↦ cleared_slot | some slot ↦ slot ] ≡ slot_or_cleared o) [
        | none ↦ refl
        | some slot ↦ refl
      ]

-- The same search, and the same slot there.
get_info_same :
    (s t : Storage) (uri : List ℕ)
    → find_slot t uri ≡ find_slot s uri
    → ((i : ℕ) → find_slot s uri ≡ some i → get_elem? t.objects i ≡ get_elem? s.objects i)
    → storage_get_info uri t ≡ storage_get_info uri s
get_info_same s t uri same slots = elim (Option-cases (find_slot s uri)) [
  | inl absent ↦
      get_info_at t uri
      ∙ ap (info_at t) (same ∙ absent)
      ∙ sym (get_info_at s uri ∙ ap (info_at s) absent)
  | inr found ↦
      get_info_at t uri
      ∙ ap (info_at t) (same ∙ found.1)
      ∙ ap (λ x. done (info_of x))
          (slot_at_lem t found.0
            ∙ ap slot_or_cleared (slots found.0 found.1)
            ∙ sym (slot_at_lem s found.0))
      ∙ sym (get_info_at s uri ∙ ap (info_at s) found.1)
]

get_info_found :
    (s : Storage) (uri : List ℕ) (i : ℕ) (slot : Slot)
    → find_slot s uri ≡ some i
    → get_elem? s.objects i ≡ some slot
    → storage_get_info uri s ≡ done (info_of slot)
get_info_found s uri i slot found there =
    get_info_at s uri
    ∙ ap (info_at s) found
    ∙ ap (λ x. done (info_of x)) (slot_at_lem s i ∙ ap slot_or_cleared there)

-- A slot holds one URI.
holds_one :
    (objects : List Slot) (i : ℕ) (u v : List ℕ)
    → slot_holds objects i u ≡ true
    → slot_holds objects i v ≡ true
    → u ≡ v
unfolding slot_holds holds
holds_one objects i u v first second = sym (stored u first) ∙ stored v second
  where
    stored : (w : List ℕ) → slot_holds objects i w ≡ true → (held_slot objects i u first).0.uri ≡ w
    stored w held =
        let there = held_slot objects i u first in
        let test : (there.0.in_use && bytes_eq there.0.uri w) ≡ true =
          sym (ap (λ o. held_by o w) there.1.0) ∙ held in
        bytes_eq→eq there.0.uri w (second_of there.0.in_use _ test)
      where
        second_of : (a b : Bool) → (a && b) ≡ true → b ≡ true
        second_of true b e = e
        second_of false b e = cc

other_slot :
    (s : Storage) (i j : ℕ) (u v : List ℕ)
    → u ≢ v
    → slot_holds s.objects i u ≡ true
    → slot_holds s.objects j v ≡ true
    → i ≢ j
other_slot s i j u v ne first second ij =
    ne (holds_one s.objects j u v (subst (λ k. slot_holds s.objects k u ≡ true) ij first) second)

-- Whatever the kernel answers, a put leaves the information on every other URI as it was. The
-- storage is consistent and the URI fits its slot.
pub storage_get_info-storage_put_other :
    (a : Answers) (uri bytes : List ℕ) (size : ℕ) (s : Storage) (u : List ℕ)
    → IsConsistent s
    → length uri ≤ 1023
    → uri ≢ u
    → storage_get_info u (storage_put a uri bytes size s).1 ≡ storage_get_info u s
storage_get_info-storage_put_other a uri bytes size s u ok short ne =
    elim (target a uri bytes size s ok short) [
      | inr full ↦
          ap (λ (r : Result (Unit {0}) × Storage). storage_get_info u r.1)
            (storage_put-full a uri bytes size s full.0 full.1)
      | inl t ↦
          let k = Keeps-write_object a t.index uri bytes size t.store in
          let after = (write_object a t.index uri bytes size t.store).1 in
          ap (λ (r : Result (Unit {0}) × Storage). storage_get_info u r.1) t.written
          ∙ get_info_same s after u
              (find_slot_same s after u ok.indexed (Keeps-IsConsistent k t.ok).indexed
                (λ j. k.held j u ∙ t.same j u ne))
              (λ j found.
                let apart =
                  other_slot t.store t.index j uri u ne t.held
                    (t.same j u ne ∙ find_slot-held s u j found) in
                k.others j apart ∙ t.others j apart)
    ]

abbrev sized : ℕ → Slot → Slot
sized n slot = record slot { size = n; backing_fd = none }

begin_write-done :
    (a : Answers) (i fd : ℕ) (bytes : List ℕ) (size : ℕ) (s : Storage)
    → a.opened ≡ some fd
    → a.written ≡ some size
    → begin_write a.opened a.written i bytes size s
      ≡ (done tt, update_slot i (sized size) (call (close fd) (call (write bytes size) s)))
unfolding begin_write end_write
begin_write-done a i fd bytes size s opened written =
    ap (λ o. begin_write o a.written i bytes size s) opened
    ∙ ap (λ w. begin_write (some fd) w i bytes size s) written
    ∙ if_eq_true (size == size) _ _ (==_self size)

-- A write that the kernel carries out sets the size of the slot.
write_object-done :
    (a : Answers) (i fd : ℕ) (uri bytes : List ℕ) (size : ℕ) (s : Storage) (slot : Slot)
    → get_elem? s.objects i ≡ some slot
    → a.opened ≡ some fd
    → a.written ≡ some size
    → ((write_object a i uri bytes size s).0 ≡ done tt)
      × ((x : Slot) × ((get_elem? (write_object a i uri bytes size s).1.objects i ≡ some x)
            × (x.size ≡ size)))
unfolding write_object
write_object-done a i fd uri bytes size s slot there opened written =
    let path = take 1023 (s.backing_dir ++ b'/' ∷ uri) in
    let named = update_slot i (λ x. record x { backing_path = path }) s in
    let begun = call (open_write path) named in
    let ended = call (close fd) (call (write bytes size) begun) in
    let ran = begin_write-done a i fd bytes size begun opened written in
    let there_named = update_slot_at i (λ x. record x { backing_path = path }) s slot there in
    (
      ap (λ (r : Result (Unit {0}) × Storage). r.0) ran,
      (
        _,
        (
          ap (λ (r : Result (Unit {0}) × Storage). get_elem? r.1.objects i) ran
              ∙ update_slot_at i (sized size) ended _ there_named,
          refl,
        ),
      ),
    )

-- A put that the kernel carries out succeeds, and the information on its URI then has the size that
-- was put. The storage is consistent, the URI fits its slot, and there is an object of that URI
-- already or fewer objects than slots.
pub storage_get_info-storage_put :
    (a : Answers) (uri bytes : List ℕ) (size fd : ℕ) (s : Storage)
    → IsConsistent s
    → length uri ≤ 1023
    → (s.count < s.capacity) ⊎ ((i : ℕ) × (find_slot s uri ≡ some i))
    → a.opened ≡ some fd
    → a.written ≡ some size
    → ((storage_put a uri bytes size s).0 ≡ done tt)
      × ((info : Info) × ((storage_get_info uri (storage_put a uri bytes size s).1 ≡ done info)
            × (info.size ≡ size)))
storage_get_info-storage_put a uri bytes size fd s ok short room opened written =
    elim (target a uri bytes size s ok short) [
      | inr full ↦ absurd (elim room [
        | inl free ↦ omega (arith, free, full.1)
        | inr found ↦ never found.0 (found.1) (full.0)
      ])
      | inl t ↦
          let k = Keeps-write_object a t.index uri bytes size t.store in
          let there = held_slot t.store.objects t.index uri t.held in
          let ran =
            write_object-done a t.index fd uri bytes size t.store there.0 there.1.0 opened
              written in
          let after = (write_object a t.index uri bytes size t.store).1 in
          let found =
            (find_slot_iff after uri t.index (Keeps-IsConsistent k t.ok).indexed).1
              (k.held t.index uri ∙ t.held) in
          (
            ap (λ (r : Result (Unit {0}) × Storage). r.0) t.written ∙ ran.0,
            (
              info_of ran.1.0,
              (
                ap (λ (r : Result (Unit {0}) × Storage). storage_get_info uri r.1) t.written
                    ∙ get_info_found after uri t.index ran.1.0 found ran.1.1.0,
                ran.1.1.1,
              ),
            ),
          )
    ]
  where
    never : (i : ℕ) → find_slot s uri ≡ some i → find_slot s uri ≡ none → ⊥
    never i e f = cc
