-- ===== src/Storage/Objects/Claim.antt =====
-- storage_put takes a free slot for a URI that no slot holds.
use objmapper.Base.{
  ℕ, ◌+◌, ◌%◌, ◌≤◌, ◌<◌, ◌≡◌, ◌≢◌, refl, sym, ap, subst, ◌∙◌, ◌⊎◌, inl, inr, Bool, true, false,
  ◌&&◌, Option, none, some, List, [], ◌∷◌, length, set, take, length-set, get_elem?-set_self,
  get_elem?-set_ne, ◌==◌, ==_iff, Bool-cases, bytes_eq, bytes_eq→eq, if◌then◌else◌, arith,
  take_short,
}
use native.Mathlib.Nat.{mod-lt}
use objmapper.Storage.Types.{Storage, HashEntry, Slot}
use objmapper.Storage.Table.{holds, held_by, chain, hash_uri, slot_holds, find_slot, add_hash_entry}
use objmapper.Storage.Table.Lookup.{Listed, IsIndexed, find_slot-none}
use objmapper.Storage.Objects.{claim_slot}
use objmapper.Storage.Objects.Keeps.{
  count_used, count_used-set, get_elem?-below, slot_holds-set_self, slot_holds-set_ne,
}
use objmapper.Storage.Objects.Free.{IsFree}
use objmapper.Storage.Objects.Consistent.{IsConsistent, chain_in}

abbrev taken : List ℕ → Slot → Slot
taken uri slot = record slot { in_use = true; uri = take 1023 uri }

-- A search in a table of which one bucket was replaced.
chain_in-set :
    (table : List (List HashEntry)) (b : ℕ) (entries : List HashEntry)
    → b < length table
    → chain_in (set table b entries) b ≡ entries
chain_in-set table b entries h =
    ap (λ (o : Option (List HashEntry)). elim o [ none ↦ [] | some xs ↦ xs ])
      (get_elem?-set_self table b entries h)

chain_in-set_ne :
    (table : List (List HashEntry)) (b c : ℕ) (entries : List HashEntry)
    → b ≢ c
    → chain_in (set table b entries) c ≡ chain_in table c
chain_in-set_ne table b c entries ne =
    ap (λ (o : Option (List HashEntry)). elim o [ none ↦ [] | some xs ↦ xs ])
      (get_elem?-set_ne table b c entries ne)

module _ (s : Storage) (uri : List ℕ) (i : ℕ) (free : IsFree s.objects i)
    (short : length uri ≤ 1023) where
  pub claim_slot-objects : (claim_slot i uri s).objects ≡ set s.objects i (taken uri free.0)
  unfolding claim_slot add_hash_entry
  claim_slot-objects =
      ap (λ (o : Option Slot). elim o [ none ↦ s.objects | some x ↦ set s.objects i (taken uri x) ])
        free.1.0

  below : i < length s.objects
  below = get_elem?-below s.objects i free.0 free.1.0

  pub claim_slot-own : (u : List ℕ) → slot_holds (claim_slot i uri s).objects i u ≡ bytes_eq uri u
  unfolding holds
  claim_slot-own u =
      ap (λ xs. slot_holds xs i u) claim_slot-objects
      ∙ slot_holds-set_self s.objects i (taken uri free.0) u below
      ∙ ap (λ v. bytes_eq v u) (take_short 1023 uri short)

  pub claim_slot-others :
      (j : ℕ) (u : List ℕ)
      → i ≢ j
      → slot_holds (claim_slot i uri s).objects j u ≡ slot_holds s.objects j u
  claim_slot-others j u ne =
      ap (λ xs. slot_holds xs j u) claim_slot-objects
      ∙ slot_holds-set_ne s.objects i j (taken uri free.0) u ne

  pub free_holds : (u : List ℕ) → slot_holds s.objects i u ≡ false
  unfolding slot_holds holds
  free_holds u = ap (λ o. held_by o u) free.1.0 ∙ ap (λ b. b && bytes_eq free.0.uri u) free.1.1

  -- A slot holds the URI after the claim: the claimed slot, or the slot that held it before.
  claim_slot-cases :
      (j : ℕ) (u : List ℕ)
      → slot_holds (claim_slot i uri s).objects j u ≡ true
      → ((i ≡ j) × (uri ≡ u)) ⊎ ((i ≢ j) × (slot_holds s.objects j u ≡ true))
  claim_slot-cases j u held = elim (Bool-cases (i == j)) [
    | inl self ↦
        let ij : i ≡ j = (==_iff i j).0 self in
        let own : slot_holds (claim_slot i uri s).objects i u ≡ true =
          ap (λ k. slot_holds (claim_slot i uri s).objects k u) ij ∙ held in
        inl (ij, bytes_eq→eq uri u (sym (claim_slot-own u) ∙ own))
    | inr other ↦ let ne : i ≢ j = ground arith in inr (ne, sym (claim_slot-others j u ne) ∙ held)
  ]

  module _ (ok : IsConsistent s) where
    bucket : hash_uri uri % s.hash_size < length s.hash_table
    bucket =
        subst (λ n. hash_uri uri % s.hash_size < n) (sym ok.buckets)
          (mod-lt (hash_uri uri) ok.sized)

    own_chain :
        chain (claim_slot i uri s) (hash_uri uri)
        ≡ record { hash = hash_uri uri; slot_index = i } ∷ chain s (hash_uri uri)
    unfolding chain claim_slot add_hash_entry
    own_chain = chain_in-set s.hash_table _ _ bucket

    -- Entries that were listed stay listed.
    still-Listed :
        (hash j : ℕ)
        → Listed hash j (chain s hash)
        → Listed hash j (chain (claim_slot i uri s) hash)
    unfolding chain claim_slot add_hash_entry
    still-Listed hash j l =
        elim (Bool-cases ((hash_uri uri % s.hash_size) == (hash % s.hash_size))) [
          | inr other ↦
              subst (Listed hash j) (sym (chain_in-set_ne s.hash_table _ _ _ (ground arith))) l
          | inl same ↦
              let buckets_same = (==_iff _ _).0 same in
              subst (λ b. Listed hash j (chain_in (claim_slot i uri s).hash_table b)) buckets_same
                (subst (Listed hash j) (sym own_chain)
                  (inr (subst (λ b. Listed hash j (chain_in s.hash_table b)) (sym buckets_same) l)))
        ]

    never :
        find_slot s uri ≡ none
        → (j : ℕ) (u : List ℕ) → uri ≡ u
        → slot_holds s.objects j u ≡ true
        → ⊥
    never absent j u same held =
        let missed : slot_holds s.objects j u ≡ false =
          subst (λ v. slot_holds s.objects j v ≡ false) same
            (find_slot-none s uri j ok.indexed absent) in
        cc

    claim_slot-used : count_used (claim_slot i uri s).objects ≡ count_used s.objects + 1
    claim_slot-used =
        let changed = count_used-set s.objects i free.0 (taken uri free.0) free.1.0 in
        let none_before = ap {B = ℕ} (λ (b : Bool). if b then 1 else 0) free.1.1 in
        ap count_used claim_slot-objects ∙ omega (arith, changed, none_before)

    claim_slot-IsIndexed : find_slot s uri ≡ none → IsIndexed (claim_slot i uri s)
    claim_slot-IsIndexed absent = record {
      listed = λ j u held. elim (claim_slot-cases j u held) [
        | inr old ↦ still-Listed (hash_uri u) j (ok.indexed.listed j u old.1)
        | inl own ↦
            subst (λ v. Listed (hash_uri v) j (chain (claim_slot i uri s) (hash_uri v))) own.1
              (subst (Listed (hash_uri uri) j) (sym own_chain) (inl (refl, own.0)))
      ];
      unique = λ j k u first second. elim (claim_slot-cases j u first) [
        | inr old ↦ elim (claim_slot-cases k u second) [
          | inr older ↦ ok.indexed.unique j k u old.1 older.1
          | inl own ↦ absurd (never absent j u own.1 old.1)
        ]
        | inl own ↦ elim (claim_slot-cases k u second) [
          | inr older ↦ absurd (never absent k u own.1 older.1)
          | inl also ↦ sym own.0 ∙ also.0
        ]
      ];
    }

    pub claim_slot-IsConsistent : find_slot s uri ≡ none → IsConsistent (claim_slot i uri s)
    unfolding claim_slot add_hash_entry
    claim_slot-IsConsistent absent = record {
      slots = ap length claim_slot-objects ∙ length-set s.objects i _ ∙ ok.slots;
      buckets = length-set s.hash_table _ _ ∙ ok.buckets;
      sized = ok.sized;
      counted = ap (λ n. n + 1) ok.counted ∙ sym claim_slot-used;
      indexed = claim_slot-IsIndexed absent;
    }
