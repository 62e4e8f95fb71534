-- ===== src/Index/Entry/Balance.antt =====
-- A reference that is taken and released leaves the counts of the entry as they were.
use objmapper.Base.{
  refl, inl, inr, Bool-cases, Option-cases, if_eq_true, ℕ, ◌<◌, ◌≡◌, ◌≢◌, ap, ◌∙◌, false, Option,
  none, some, List, get_elem?, set, get_elem?-set_self, get_elem?-set_ne, length, zero, suc, [],
  ◌∷◌, ◌==◌, if_eq_false, arith,
}
use objmapper.Index.Entry.{
  close_if, Entry, Memory, update_entry, index_entry_put, put_entry, fd_ref_release, release_entry,
  decrement, close, call,
}

pub below : (xs : List Entry) (i : ℕ) (e : Entry) → get_elem? xs i ≡ some e → i < length xs
below [] i e h = cc
below (x ∷ xs) zero e h = omega arith
below (x ∷ xs) (suc i) e h = let rest = below xs i e h in omega arith

pub update_entry_at :
    (i : ℕ) (change : Entry → Entry) (m : Memory) (e : Entry)
    → get_elem? m.entries i ≡ some e
    → get_elem? (update_entry i change m).entries i ≡ some (change e)
update_entry_at i change m e there =
    ap {B = Option Entry}
      (λ (o : Option Entry).
        get_elem? (elim o [ none ↦ m.entries | some x ↦ set m.entries i (change x) ]) i)
      there
    ∙ get_elem?-set_self m.entries i (change e) (below m.entries i e there)

pub update_entry_ne :
    (i j : ℕ) (change : Entry → Entry) (m : Memory) (e : Entry)
    → get_elem? m.entries i ≡ some e
    → i ≢ j
    → get_elem? (update_entry i change m).entries j ≡ get_elem? m.entries j
update_entry_ne i j change m e there ne =
    ap {B = Option Entry}
      (λ (o : Option Entry).
        get_elem? (elim o [ none ↦ m.entries | some x ↦ set m.entries i (change x) ]) j)
      there
    ∙ get_elem?-set_ne m.entries i j (change e) ne

abbrev pub put_down : Entry → Entry
put_down e = record e { entry_refcount = decrement e.entry_refcount }

-- A reference that is not the last is put.
index_entry_put-kept :
    (i : ℕ) (m : Memory) (e : Entry)
    → get_elem? m.entries i ≡ some e
    → (e.entry_refcount == 1) ≡ false
    → index_entry_put i m ≡ update_entry i put_down m
unfolding index_entry_put put_entry
index_entry_put-kept i m e there more =
    ap (λ o. put_entry o i m) there ∙ if_eq_false (e.entry_refcount == 1) _ _ more

abbrev pub released : Option ℕ → Entry → Entry
released none e = put_down e
released (some fd) e = put_down (record e { fd_refcount = decrement e.fd_refcount })

-- A release of a reference that is not the last.
pub fd_ref_release_at :
    (i : ℕ) (fd : Option ℕ) (generation : ℕ) (m : Memory) (e : Entry)
    → get_elem? m.entries i ≡ some e
    → (e.entry_refcount == 1) ≡ false
    → get_elem?
        (fd_ref_release (record { entry = some i; fd = fd; generation = generation }) m).1.entries
        i
      ≡ some (released fd e)
unfolding fd_ref_release release_entry
fd_ref_release_at i none generation m e there more =
    ap (λ (x : Memory). get_elem? x.entries i) (index_entry_put-kept i m e there more)
    ∙ update_entry_at i put_down m e there
fd_ref_release_at i (some fd) generation m e there more =
    let closed = call (close fd) m in
    let lowered = λ (x : Entry). record x { fd_refcount = decrement x.fd_refcount } in
    let there_lowered = update_entry_at i lowered closed e there in
    ap (λ (x : Memory). get_elem? x.entries i)
      (index_entry_put-kept i (update_entry i lowered closed) (lowered e) there_lowered more)
    ∙ update_entry_at i put_down (update_entry i lowered closed) (lowered e) there_lowered

-- A change of one entry leaves the others.
pub update_entry_other :
    (i j : ℕ) (change : Entry → Entry) (m : Memory)
    → i ≢ j
    → get_elem? (update_entry i change m).entries j ≡ get_elem? m.entries j
update_entry_other i j change m ne = elim (Option-cases (get_elem? m.entries i)) [
  | inr there ↦ update_entry_ne i j change m there.0 there.1 ne
  | inl absent ↦
      ap {B = Option Entry}
        (λ (o : Option Entry).
          get_elem? (elim o [ none ↦ m.entries | some x ↦ set m.entries i (change x) ]) j)
        absent
]

close_if_other : (fd : Option ℕ) (m : Memory) → (close_if fd m).entries ≡ m.entries
close_if_other none m = refl
close_if_other (some fd) m = refl

put_entry_other :
    (o : Option Entry) (i j : ℕ) (m : Memory)
    → i ≢ j
    → get_elem? (put_entry o i m).entries j ≡ get_elem? m.entries j
unfolding put_entry
put_entry_other none i j m ne = refl
put_entry_other (some e) i j m ne =
    let put = update_entry i put_down m in
    let freed = update_entry i (λ (x : Entry). record x { live = false }) put in
    elim (Bool-cases (e.entry_refcount == 1)) [
      | inl last ↦
          ap (λ (x : Memory). get_elem? x.entries j)
            (if_eq_true (e.entry_refcount == 1) (close_if e.fd freed) put last)
          ∙ ap (λ xs. get_elem? xs j) (close_if_other e.fd freed)
          ∙ update_entry_other i j (λ (x : Entry). record x { live = false }) put ne
          ∙ update_entry_other i j put_down m ne
      | inr more ↦
          ap (λ (x : Memory). get_elem? x.entries j)
            (if_eq_false (e.entry_refcount == 1) (close_if e.fd freed) put more)
          ∙ update_entry_other i j put_down m ne
    ]

pub index_entry_put_other :
    (i j : ℕ) (m : Memory)
    → i ≢ j
    → get_elem? (index_entry_put i m).entries j ≡ get_elem? m.entries j
unfolding index_entry_put
index_entry_put_other i j m ne = put_entry_other (get_elem? m.entries i) i j m ne
