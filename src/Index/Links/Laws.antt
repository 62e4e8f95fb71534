-- ===== src/Index/Links/Laws.antt =====
-- Searches after a removal from either index.
use objmapper.Base.{
  ℕ, ◌≡◌, ◌≢◌, refl, sym, ap, subst, ◌∙◌, inl, inr, Bool, true, false, ◌&&◌, Option, none, some,
  List, [], ◌∷◌, length, get_elem?, set, ◌==◌, ==_iff, Bool-cases, Option-cases, bytes_eq,
  if◌then◌else◌, arith,
}
use objmapper.Base.Distinct.{Outside, without}
use objmapper.Index.Entry.{Entry, Memory, update_entry, index_entry_put, index_hash_string}
use objmapper.Index.Entry.Balance.{update_entry_at, update_entry_other, index_entry_put_other}
use objmapper.Index.Tables.{
  GlobalIndex, BackendIndex, Walk, found, missing, stuck, walk_entry, next_of, search, head_of,
  bucket_of, matches,
}
use objmapper.Index.Tables.Chains.{linked_to}
use objmapper.Index.Removal.{
  at_link, unlink_entry, drop_fd, fd_of, global_remove_at, global_index_remove, backend_remove_at,
  backend_index_remove,
}
use objmapper.Index.Links.{Chain, Chain-le, first_match, search-first_match}
use objmapper.Index.Links.Insert.{SameBut, Chain-SameBut}
use objmapper.Index.Links.Locate.{locate_list, locate-locate_list, located, not_located}
use objmapper.Index.Links.Remove.{unlink_entry-Chain}

-- What a search reads of an entry, its link apart.
abbrev key : Option Entry → Option (ℕ × List ℕ)
key none = none
key (some e) = some (e.uri_hash, e.uri)

abbrev walk_key : Option (ℕ × List ℕ) → ℕ → ℕ → List ℕ → Walk → Walk
walk_key none i hash uri rest = stuck
walk_key (some k) i hash uri rest = if (k.0 == hash) && bytes_eq k.1 uri then found i else rest

walk_entry-key :
    (o : Option Entry) (i hash : ℕ) (uri : List ℕ) (rest : Walk)
    → walk_entry o i hash uri rest ≡ walk_key (key o) i hash uri rest
unfolding walk_entry matches
walk_entry-key none i hash uri rest = refl
walk_entry-key (some e) i hash uri rest = refl

-- Two memories agree on the keys of all entries but one.
abbrev SameKeys : ℕ → Memory → Memory → Type 0
SameKeys i m m' = (j : ℕ) → i ≢ j → key (get_elem? m'.entries j) ≡ key (get_elem? m.entries j)

first_match-SameKeys :
    (i : ℕ) (m m' : Memory) (hash : ℕ) (uri is : List ℕ)
    → SameKeys i m m'
    → Outside i is
    → first_match m' hash uri is ≡ first_match m hash uri is
unfolding first_match
first_match-SameKeys i m m' hash uri [] same out = refl
first_match-SameKeys i m m' hash uri (j ∷ is) same out =
    walk_entry-key (get_elem? m'.entries j) j hash uri (first_match m' hash uri is)
    ∙ ap (λ k. walk_key k j hash uri (first_match m' hash uri is)) (same j out.0)
    ∙ ap (walk_key (key (get_elem? m.entries j)) j hash uri)
        (first_match-SameKeys i m m' hash uri is same out.1)
    ∙ sym (walk_entry-key (get_elem? m.entries j) j hash uri (first_match m hash uri is))

linked_key :
    (p j : ℕ) (next : Option ℕ) (m : Memory)
    → key (get_elem? (update_entry p (linked_to next) m).entries j) ≡ key (get_elem? m.entries j)
linked_key p j next m = elim (Bool-cases (p == j)) [
  | inr other ↦
      let ne : p ≢ j = ground arith in ap key (update_entry_other p j (linked_to next) m ne)
  | inl self ↦
      subst
        (λ k.
          key (get_elem? (update_entry p (linked_to next) m).entries k)
          ≡ key (get_elem? m.entries k))
        ((==_iff p j).0 self)
        (elim (Option-cases (get_elem? m.entries p)) [
          | inr there ↦
              ap key (update_entry_at p (linked_to next) m there.0 there.1) ∙ sym (ap key there.1)
          | inl absent ↦
              ap {B = Option (ℕ × List ℕ)}
                (λ (o : Option Entry). key (
                  get_elem?
                    (elim o [ none ↦ m.entries | some x ↦ set m.entries p (linked_to next x) ]) p))
                absent
        ])
]

unlink_key :
    (prev : Option ℕ) (b : ℕ) (next : Option ℕ) (buckets : List (Option ℕ)) (m : Memory) (j : ℕ)
    → key (get_elem? (unlink_entry prev b next buckets m).1.entries j) ≡ key (get_elem? m.entries j)
unfolding unlink_entry
unlink_key none b next buckets m j = refl
unlink_key (some p) b next buckets m j = linked_key p j next m

drop_fd_other : (fd : Option ℕ) (i : ℕ) (m : Memory) → SameBut i m (drop_fd fd i m)
unfolding drop_fd
drop_fd_other none i m j ne = refl
drop_fd_other (some fd) i m j ne =
    update_entry_other i j (λ (e : Entry). record e { fd = none }) m ne

Outside-without_self : (i : ℕ) (is : List ℕ) → Outside i (without i is)
unfolding without
Outside-without_self i [] = tt
Outside-without_self i (j ∷ is) = elim (Bool-cases (j == i)) [
  | inl same ↦ rw same (Outside-without_self i is)
  | inr other ↦
      let ne : i ≢ j = λ e. (let on = (==_iff j i).1 (sym e) in cc) in
      rw other (ne, Outside-without_self i is)
]

-- What holds of a chain once its entry i is out of it, and whatever then happens to that entry.
pub record IsWithout (i : ℕ) (is : List ℕ) (b n : ℕ) (m : Memory) (buckets : List (Option ℕ))
    (m' : Memory) : Type 0 where
  pub chained : Chain m' (head_of buckets b) (without i is)
  pub searched :
      (hash : ℕ) (uri : List ℕ)
      → bucket_of hash n ≡ b
      → search m' buckets n hash uri ≡ first_match m hash uri (without i is)

unlinked-IsWithout :
    (m : Memory) (buckets : List (Option ℕ)) (n hash : ℕ) (uri is : List ℕ) (prev : Option ℕ)
    (i : ℕ) (m' : Memory)
    → Chain m (head_of buckets (bucket_of hash n)) is
    → locate_list m hash uri none is ≡ at_link prev i
    → SameBut i
        (unlink_entry prev (bucket_of hash n) (next_of (get_elem? m.entries i)) buckets m).1
        m'
    → IsWithout i is
        (bucket_of hash n)
        n
        m
        (unlink_entry prev (bucket_of hash n) (next_of (get_elem? m.entries i)) buckets m).0
        m'
unlinked-IsWithout m buckets n hash uri is prev i m' c at same =
    let b = bucket_of hash n in
    let next = next_of (get_elem? m.entries i) in
    let unlinked = unlink_entry prev b next buckets m in
    let chained =
      Chain-SameBut i unlinked.1 m' (head_of unlinked.0 b) (without i is) same
        (Outside-without_self i is) (unlink_entry-Chain m buckets b hash uri is prev i c at) in
    record {
      chained = chained;
      searched = λ hash' uri' in_b.
          search-first_match m' unlinked.0 n hash' uri' (without i is)
            (subst (λ k. Chain m' (head_of unlinked.0 k) (without i is)) (sym in_b) chained)
          ∙ first_match-SameKeys i m m' hash' uri' (without i is)
              (λ j ne. ap key (same j ne) ∙ unlink_key prev b next buckets m j)
              (Outside-without_self i is);
    }

located_in :
    (m : Memory) (buckets : List (Option ℕ)) (n hash : ℕ) (uri is : List ℕ) (i : ℕ)
    → Chain m (head_of buckets (bucket_of hash n)) is
    → search m buckets n hash uri ≡ found i
    → (prev : Option ℕ) × (locate_list m hash uri none is ≡ at_link prev i)
located_in m buckets n hash uri is i c hit =
    located m hash uri none _ is i c (sym (search-first_match m buckets n hash uri is c) ∙ hit)

-- The global index takes out the entry that a search finds: the chain is then the old one without
-- it, and any search along that chain finds the first match among the others. The bucket of the URI
-- has a chain of different entries.
pub search-global_index_remove :
    (uri : List ℕ) (idx : GlobalIndex) (m : Memory) (is : List ℕ) (i : ℕ)
    → Chain m (head_of idx.buckets (bucket_of (index_hash_string uri) idx.num_buckets)) is
    → search m idx.buckets idx.num_buckets (index_hash_string uri) uri ≡ found i
    → ((global_index_remove uri idx m).0 ≡ true)
      × IsWithout i is
          (bucket_of (index_hash_string uri) idx.num_buckets)
          idx.num_buckets
          m
          (global_index_remove uri idx m).1.0.buckets
          (global_index_remove uri idx m).1.1
unfolding global_index_remove global_remove_at
search-global_index_remove uri idx m is i c hit =
    let hash = index_hash_string uri in
    let b = bucket_of hash idx.num_buckets in
    let at = located_in m idx.buckets idx.num_buckets hash uri is i c hit in
    let ran =
      ap (λ l. global_remove_at l b idx m)
        (locate-locate_list (length m.entries) m hash uri none _ is (Chain-le m _ is c) c ∙ at.1) in
    let unlinked = unlink_entry at.0 b (next_of (get_elem? m.entries i)) idx.buckets m in
    let fd = fd_of (get_elem? unlinked.1.entries i) in
    (
      ap (λ (r : Bool × (GlobalIndex × Memory)). r.0) ran,
      subst
          (λ (r : Bool × (GlobalIndex × Memory)).
            IsWithout i is b idx.num_buckets m r.1.0.buckets r.1.1)
          (sym ran)
          (unlinked-IsWithout m idx.buckets idx.num_buckets hash uri is at.0 i
            (index_entry_put i (drop_fd fd i unlinked.1)) c at.1
            (λ j ne.
              index_entry_put_other i j (drop_fd fd i unlinked.1) ne
              ∙ drop_fd_other fd i unlinked.1 j ne)),
    )

-- The index of a backend takes out the entry that a search finds, in the same way.
pub search-backend_index_remove :
    (uri : List ℕ) (idx : BackendIndex) (m : Memory) (is : List ℕ) (i : ℕ)
    → Chain m (head_of idx.buckets (bucket_of (index_hash_string uri) idx.num_buckets)) is
    → search m idx.buckets idx.num_buckets (index_hash_string uri) uri ≡ found i
    → ((backend_index_remove uri idx m).0 ≡ true)
      × IsWithout i is
          (bucket_of (index_hash_string uri) idx.num_buckets)
          idx.num_buckets
          m
          (backend_index_remove uri idx m).1.0.buckets
          (backend_index_remove uri idx m).1.1
unfolding backend_index_remove backend_remove_at
search-backend_index_remove uri idx m is i c hit =
    let hash = index_hash_string uri in
    let b = bucket_of hash idx.num_buckets in
    let at = located_in m idx.buckets idx.num_buckets hash uri is i c hit in
    let ran =
      ap (λ l. backend_remove_at l b idx m)
        (locate-locate_list (length m.entries) m hash uri none _ is (Chain-le m _ is c) c ∙ at.1) in
    let unlinked = unlink_entry at.0 b (next_of (get_elem? m.entries i)) idx.buckets m in
    (
      ap (λ (r : Bool × (BackendIndex × Memory)). r.0) ran,
      subst
          (λ (r : Bool × (BackendIndex × Memory)).
            IsWithout i is b idx.num_buckets m r.1.0.buckets r.1.1)
          (sym ran)
          (unlinked-IsWithout m idx.buckets idx.num_buckets hash uri is at.0 i
            (index_entry_put i unlinked.1) c at.1
            (λ j ne. index_entry_put_other i j unlinked.1 ne)),
    )

-- A URI that no search finds is not removed, and nothing changes in the global index or in the
-- memory. The bucket of the URI has a chain of different entries.
pub global_index_remove-missing :
    (uri : List ℕ) (idx : GlobalIndex) (m : Memory) (is : List ℕ)
    → Chain m (head_of idx.buckets (bucket_of (index_hash_string uri) idx.num_buckets)) is
    → search m idx.buckets idx.num_buckets (index_hash_string uri) uri ≡ missing
    → global_index_remove uri idx m ≡ (false, (idx, m))
unfolding global_index_remove global_remove_at
global_index_remove-missing uri idx m is c miss =
    let hash = index_hash_string uri in
    let b = bucket_of hash idx.num_buckets in
    ap (λ l. global_remove_at l b idx m)
      (locate-locate_list (length m.entries) m hash uri none _ is (Chain-le m _ is c) c
        ∙ not_located m hash uri none _ is c
            (sym (search-first_match m idx.buckets idx.num_buckets hash uri is c) ∙ miss))
