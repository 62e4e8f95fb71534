-- ===== src/Storage/Objects/Put.antt =====
-- The slot to which storage_put writes: the one that holds the URI, or a free one.
use objmapper.Base.{
  ℕ, ◌≤◌, ◌<◌, ◌≡◌, ◌≢◌, refl, sym, ap, subst, ◌∙◌, ◌⊎◌, inl, inr, true, false, none, some, List,
  length, get_elem?, get_elem?-set_ne, ◌==◌, ==_iff, leb, leb→le, le→leb, Bool-cases, Option-cases,
  bytes_eq, bytes_eq→eq, bytes_eq_self, arith, if_eq_true, if_eq_false,
}
use objmapper.Storage.Types.{Storage, Answers, failed, enomem}
use objmapper.Storage.Table.{slot_holds, find_slot}
use objmapper.Storage.Table.Lookup.{find_slot-held}
use objmapper.Storage.Objects.{
  storage_put, put_at, put_in_free, write_object, claim_slot, free_index,
}
use objmapper.Storage.Objects.Free.{IsFree, free_index-IsFree, free_index-some}
use objmapper.Storage.Objects.Claim.{
  claim_slot-IsConsistent, claim_slot-own, claim_slot-others, claim_slot-objects, free_holds,
}
use objmapper.Storage.Objects.Consistent.{IsConsistent}

module _ (a : Answers) (uri bytes : List ℕ) (size : ℕ) (s : Storage) where
  -- A slot, and the store with that slot ready for the URI.
  pub record Target : Type 0 where
    pub index : ℕ
    pub store : Storage
    pub ok : IsConsistent store
    pub held : slot_holds store.objects index uri ≡ true
    pub same :
        (j : ℕ) (u : List ℕ) → uri ≢ u → slot_holds store.objects j u ≡ slot_holds s.objects j u
    pub others : (j : ℕ) → index ≢ j → get_elem? store.objects j ≡ get_elem? s.objects j
    pub written : storage_put a uri bytes size s ≡ write_object a index uri bytes size store

  found_target : (i : ℕ) → IsConsistent s → find_slot s uri ≡ some i → Target
  unfolding storage_put put_at
  found_target i s_ok found = record {
    index = i;
    store = s;
    ok = s_ok;
    held = find_slot-held s uri i found;
    same = λ j u ne. refl;
    others = λ j ne. refl;
    written = ap (λ o. put_at o a uri bytes size s) found;
  }

  free_target :
      (i : ℕ)
      → IsConsistent s
      → length uri ≤ 1023
      → find_slot s uri ≡ none
      → s.count < s.capacity
      → free_index s.objects ≡ some i
      → Target
  unfolding storage_put put_at put_in_free
  free_target i s_ok short absent room found =
      let free = free_index-IsFree s.objects i found in
      record {
        index = i;
        store = claim_slot i uri s;
        ok = claim_slot-IsConsistent s uri i free short s_ok absent;
        held = claim_slot-own s uri i free short uri ∙ bytes_eq_self uri;
        same = λ j u ne. claim_slot-same i s_ok short free j u ne;
        others = λ j ne.
            ap (λ xs. get_elem? xs j) (claim_slot-objects s uri i free short)
            ∙ get_elem?-set_ne s.objects i j _ ne;
        written =
            ap (λ o. put_at o a uri bytes size s) absent
            ∙ if_eq_false (leb s.capacity s.count) _ _ (ground arith)
            ∙ ap (λ o. put_in_free o a uri bytes size s) found;
      }
    where
      claim_slot-same :
          (i : ℕ)
          → IsConsistent s
          → length uri ≤ 1023
          → IsFree s.objects i
          → (j : ℕ) (u : List ℕ) → uri ≢ u
          → slot_holds (claim_slot i uri s).objects j u ≡ slot_holds s.objects j u
      claim_slot-same i s_ok short free j u ne = elim (Bool-cases (i == j)) [
        | inr other ↦ claim_slot-others s uri i free short j u (ground arith)
        | inl self ↦
            let ij : i ≡ j = (==_iff i j).0 self in
            subst (λ k. slot_holds (claim_slot i uri s).objects k u ≡ slot_holds s.objects k u) ij
              (claim_slot-own s uri i free short u
                ∙ unequal u ne
                ∙ sym (free_holds s uri i free short u))
      ]
        where
          unequal : (u : List ℕ) → uri ≢ u → bytes_eq uri u ≡ false
          unequal u ne = elim (Bool-cases (bytes_eq uri u)) [
            | inl e ↦ absurd (ne (bytes_eq→eq uri u e))
            | inr e ↦ e
          ]

  -- The slot is there unless the store is full of other objects.
  pub target :
      IsConsistent s
      → length uri ≤ 1023
      → Target ⊎ ((find_slot s uri ≡ none) × (s.capacity ≤ s.count))
  target s_ok short = elim (Option-cases (find_slot s uri)) [
    | inr found ↦ inl (found_target found.0 s_ok found.1)
    | inl absent ↦ elim (Bool-cases (leb s.capacity s.count)) [
      | inl full ↦ inr (absent, leb→le s.capacity s.count full)
      | inr room ↦
          let below : s.count < s.capacity = ground arith in
          let counted = s_ok.counted in
          let slots = s_ok.slots in
          let free = free_index-some s.objects (omega (arith, below, counted, slots)) in
          inl (free_target free.0 s_ok short absent below free.1)
    ]
  ]

  pub storage_put-full :
      find_slot s uri ≡ none
      → s.capacity ≤ s.count
      → storage_put a uri bytes size s ≡ (failed enomem, s)
  unfolding storage_put put_at
  storage_put-full absent full =
      ap (λ o. put_at o a uri bytes size s) absent
      ∙ if_eq_true (leb s.capacity s.count) _ _ (le→leb s.capacity s.count full)
