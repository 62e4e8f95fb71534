-- ===== src/Index/Links/Insert.antt =====
-- What an insertion does to the chains, and to the searches along them.
use objmapper.Base.{
  ℕ, ◌<◌, ◌≡◌, ◌≢◌, refl, sym, ap, subst, ◌∙◌, inl, inr, Bool, true, false, ◌&&◌, Option, some,
  List, [], ◌∷◌, length, get_elem?, set, get_elem?-set_ne, ◌==◌, ==_iff, Bool-cases, if◌then◌else◌,
  if_eq_false, arith,
}
use objmapper.Base.Distinct.{Outside}
use objmapper.Index.Entry.{Entry, Memory}
use objmapper.Index.Entry.Balance.{update_entry_at, update_entry_ne}
use objmapper.Index.Tables.{
  GlobalIndex, found, missing, walk_entry, search, head_of, head_in, bucket_of, matches, link,
  insert_unless, global_index_insert,
}
use objmapper.Index.Tables.Chains.{global_index_insert_new, head_of-set, linked_to}
use objmapper.Index.Links.{Chain, first_match, search-first_match}

-- Two memories differ at most in one entry.
abbrev pub SameBut : ℕ → Memory → Memory → Type 0
SameBut i m m' = (j : ℕ) → i ≢ j → get_elem? m'.entries j ≡ get_elem? m.entries j

pub Chain-SameBut :
    (i : ℕ) (m m' : Memory) (head : Option ℕ) (is : List ℕ)
    → SameBut i m m'
    → Outside i is
    → Chain m head is
    → Chain m' head is
Chain-SameBut i m m' head [] same out c = c
Chain-SameBut i m m' head (j ∷ is) same out c = (
  c.0,
  (
    c.1.0,
    (same j out.0 ∙ c.1.1.0, (c.1.1.1.0, Chain-SameBut i m m' c.1.0.next is same out.1 c.1.1.1.1)),
  ),
)

pub first_match-SameBut :
    (i : ℕ) (m m' : Memory) (hash : ℕ) (uri is : List ℕ)
    → SameBut i m m'
    → Outside i is
    → first_match m' hash uri is ≡ first_match m hash uri is
unfolding first_match
first_match-SameBut i m m' hash uri [] same out = refl
first_match-SameBut i m m' hash uri (j ∷ is) same out =
    ap (λ o. walk_entry o j hash uri (first_match m' hash uri is)) (same j out.0)
    ∙ ap (walk_entry (get_elem? m.entries j) j hash uri)
        (first_match-SameBut i m m' hash uri is same out.1)

head_of-set_ne :
    (buckets : List (Option ℕ)) (b c : ℕ) (o : Option ℕ)
    → b ≢ c
    → head_of (set buckets b o) c ≡ head_of buckets c
unfolding head_of
head_of-set_ne buckets b c o ne = ap head_in (get_elem?-set_ne buckets b c o ne)

matches_hash : (e : Entry) (hash : ℕ) (uri : List ℕ) → matches e hash uri ≡ true → e.uri_hash ≡ hash
unfolding matches
matches_hash e hash uri h = (==_iff e.uri_hash hash).0 (first (e.uri_hash == hash) _ h)
  where
    first : (a b : Bool) → (a && b) ≡ true → a ≡ true
    first true b h = refl
    first false b h = cc

module _ (i : ℕ) (e : Entry) (b : ℕ) (buckets : List (Option ℕ)) (m : Memory)
    (there : get_elem? m.entries i ≡ some e) (below : b < length buckets) where
  pub link-SameBut : SameBut i m (link b i buckets m).1
  unfolding link
  link-SameBut j ne = update_entry_ne i j (linked_to (head_of buckets b)) m e there ne

  pub link_at : get_elem? (link b i buckets m).1.entries i ≡ some (linked_to (head_of buckets b) e)
  unfolding link
  link_at = update_entry_at i (linked_to (head_of buckets b)) m e there

  pub link-Chain :
      (is : List ℕ)
      → Outside i is
      → Chain m (head_of buckets b) is
      → Chain (link b i buckets m).1 (head_of (link b i buckets m).0 b) (i ∷ is)
  unfolding link
  link-Chain is out c = (
    head_of-set buckets b i below,
    (
      linked_to (head_of buckets b) e,
      (link_at, (out, Chain-SameBut i m (link b i buckets m).1 _ is link-SameBut out c)),
    ),
  )

  pub link-Chain_other :
      (c : ℕ) (is : List ℕ)
      → b ≢ c
      → Outside i is
      → Chain m (head_of buckets c) is
      → Chain (link b i buckets m).1 (head_of (link b i buckets m).0 c) is
  unfolding link
  link-Chain_other c is ne out chained =
      subst (λ h. Chain (link b i buckets m).1 h is) (sym (head_of-set_ne buckets b c (some i) ne))
        (Chain-SameBut i m (link b i buckets m).1 _ is link-SameBut out chained)

  -- What a search finds once the entry is linked.
  pub search-link :
      (n hash : ℕ) (uri is : List ℕ)
      → b ≡ bucket_of e.uri_hash n
      → Chain m (head_of buckets (bucket_of hash n)) is
      → Outside i is
      → search (link b i buckets m).1 (link b i buckets m).0 n hash uri
        ≡ (if matches e hash uri then found i else search m buckets n hash uri)
  unfolding first_match walk_entry matches
  search-link n hash uri is at_b c out = elim (Bool-cases (b == bucket_of hash n)) [
    | inl same ↦
        let bc : b ≡ bucket_of hash n = (==_iff b (bucket_of hash n)).0 same in
        let here = subst (λ k. Chain m (head_of buckets k) is) (sym bc) c in
        let after =
          subst (λ k. Chain (link b i buckets m).1 (head_of (link b i buckets m).0 k) (i ∷ is)) bc
            (link-Chain is out here) in
        search-first_match (link b i buckets m).1 (link b i buckets m).0 n hash uri (i ∷ is) after
        ∙ ap (λ o. walk_entry o i hash uri (first_match (link b i buckets m).1 hash uri is)) link_at
        ∙ ap (λ w. if matches e hash uri then found i else w)
            (first_match-SameBut i m (link b i buckets m).1 hash uri is link-SameBut out
              ∙ sym (search-first_match m buckets n hash uri is c))
    | inr other ↦
        let ne : b ≢ bucket_of hash n = ground arith in
        let after = link-Chain_other (bucket_of hash n) is ne out c in
        search-first_match (link b i buckets m).1 (link b i buckets m).0 n hash uri is after
        ∙ first_match-SameBut i m (link b i buckets m).1 hash uri is link-SameBut out
        ∙ sym (search-first_match m buckets n hash uri is c)
        ∙ sym (
            if_eq_false (matches e hash uri) (found i) (search m buckets n hash uri)
              (elsewhere hash uri n at_b ne))
  ]
    where
      elsewhere :
          (hash : ℕ) (uri : List ℕ) (n : ℕ)
          → b ≡ bucket_of e.uri_hash n
          → b ≢ bucket_of hash n
          → matches e hash uri ≡ false
      elsewhere hash uri n at_b ne = elim (Bool-cases (matches e hash uri)) [
        | inr off ↦ off
        | inl on ↦ absurd (ne (at_b ∙ ap (λ k. bucket_of k n) (matches_hash e hash uri on)))
      ]

-- After an insertion that finds no duplicate, a search for the new URI finds the new entry, and a
-- search for any other finds what it found before, in every chain. The buckets are as many as the
-- index says, the chain of the searched URI holds different entries, and the new entry is in the
-- memory and not in that chain.
pub search-global_index_insert :
    (i : ℕ) (e : Entry) (idx : GlobalIndex) (m : Memory) (hash : ℕ) (uri is : List ℕ)
    → get_elem? m.entries i ≡ some e
    → bucket_of e.uri_hash idx.num_buckets < length idx.buckets
    → search m idx.buckets idx.num_buckets e.uri_hash e.uri ≡ missing
    → Chain m (head_of idx.buckets (bucket_of hash idx.num_buckets)) is
    → Outside i is
    → ((global_index_insert i idx m).0 ≡ true)
      × (search
            (global_index_insert i idx m).1.1
            (global_index_insert i idx m).1.0.buckets
            (global_index_insert i idx m).1.0.num_buckets
            hash
            uri
          ≡ (if matches e hash uri then found i else search m idx.buckets idx.num_buckets hash uri))
unfolding insert_unless
search-global_index_insert i e idx m hash uri is there below new c out =
    let ran = global_index_insert_new i idx m e there new in
    let b = bucket_of e.uri_hash idx.num_buckets in
    (
      ap (λ (r : Bool × (GlobalIndex × Memory)). r.0) ran,
      ap
            (λ (r : Bool × (GlobalIndex × Memory)).
              search r.1.1 r.1.0.buckets r.1.0.num_buckets hash uri)
            ran
          ∙ search-link i e b idx.buckets m there below idx.num_buckets hash uri is refl c out,
    )
