-- ===== src/Index/Tables/Chains.antt =====
-- The two indexes share the one link that an entry has.
use objmapper.Base.{
  ℕ, ◌<◌, ◌≡◌, ◌≢◌, refl, sym, ap, subst, ◌∙◌, inl, inr, Bool, true, false, ◌&&◌, Option, none,
  some, List, get_elem?, set, get_elem?-set_self, length, zero, suc, [], ◌∷◌, ◌==◌, if◌then◌else◌,
  ==_self, bytes_eq, bytes_eq_self, bytes_eq→eq, Bool-cases, if_eq_false, if_eq_true, arith,
}
use objmapper.Index.Entry.{Entry, Memory, update_entry, index_entry_get, increment}
use objmapper.Index.Entry.Balance.{update_entry_at, below}
use objmapper.Index.Tables.{
  GlobalIndex, BackendIndex, bucket_of, head_of, head_in, Walk, found, missing, matches, walk,
  walk_entry, next_of, search, link, insert_unless, insert_entry, global_index_insert, link_entry,
  backend_index_insert,
}

-- One step of a walk.
walk_step :
    (fuel : ℕ) (m : Memory) (hash : ℕ) (uri : List ℕ) (i : ℕ) (e : Entry)
    → get_elem? m.entries i ≡ some e
    → walk (suc fuel) m hash uri (some i)
      ≡ (if matches e hash uri then found i else walk fuel m hash uri e.next)
unfolding walk walk_entry
walk_step fuel m hash uri i e there =
    ap {B = Walk} (λ (o : Option Entry). walk_entry o i hash uri (walk fuel m hash uri (next_of o)))
      there

search_at :
    (m : Memory) (buckets : List (Option ℕ)) (num_buckets hash : ℕ) (uri : List ℕ) (i : ℕ)
    (e : Entry)
    → head_of buckets (bucket_of hash num_buckets) ≡ some i
    → get_elem? m.entries i ≡ some e
    → (n : ℕ) × (search m buckets num_buckets hash uri
        ≡ (if matches e hash uri then found i else walk n m hash uri e.next))
unfolding search
search_at m buckets num_buckets hash uri i e head there =
    from_length (length m.entries) refl (below m.entries i e there)
  where
    from_length :
        (k : ℕ)
        → length m.entries ≡ k
        → i < length m.entries
        → (n : ℕ) × (walk
              (length m.entries)
              m
              hash
              uri
              (head_of buckets (bucket_of hash num_buckets))
            ≡ (if matches e hash uri then found i else walk n m hash uri e.next))
    from_length zero size h = absurd (omega arith)
    from_length (suc n) size h = (
      n,
      ap (λ o. walk (length m.entries) m hash uri o) head
          ∙ ap (λ k. walk k m hash uri (some i)) size
          ∙ walk_step n m hash uri i e there,
    )

-- The head of the chain is what is looked up.
pub search_head :
    (m : Memory) (buckets : List (Option ℕ)) (num_buckets hash : ℕ) (uri : List ℕ) (i : ℕ)
    (e : Entry)
    → head_of buckets (bucket_of hash num_buckets) ≡ some i
    → get_elem? m.entries i ≡ some e
    → matches e hash uri ≡ true
    → search m buckets num_buckets hash uri ≡ found i
search_head m buckets num_buckets hash uri i e head there hit =
    (search_at m buckets num_buckets hash uri i e head there).1
    ∙ if_eq_true (matches e hash uri) _ _ hit

-- The chain has one entry, which is another.
search_end :
    (m : Memory) (buckets : List (Option ℕ)) (num_buckets hash : ℕ) (uri : List ℕ) (i : ℕ)
    (e : Entry)
    → head_of buckets (bucket_of hash num_buckets) ≡ some i
    → get_elem? m.entries i ≡ some e
    → matches e hash uri ≡ false
    → e.next ≡ none
    → search m buckets num_buckets hash uri ≡ missing
unfolding walk
search_end m buckets num_buckets hash uri i e head there other last =
    let ran = search_at m buckets num_buckets hash uri i e head there in
    ran.1
    ∙ if_eq_false (matches e hash uri) _ _ other
    ∙ ap (λ o. walk ran.0 m hash uri o) last
    ∙ walk-none ran.0
  where
    walk-none : (n : ℕ) → walk n m hash uri none ≡ missing
    walk-none zero = refl
    walk-none (suc n) = refl

pub head_of-below :
    (buckets : List (Option ℕ)) (b k : ℕ) → head_of buckets b ≡ some k → b < length buckets
unfolding head_of
head_of-below [] b k h = cc
head_of-below (x ∷ xs) zero k h = omega arith
head_of-below (x ∷ xs) (suc b) k h = let rest = head_of-below xs b k h in omega arith

pub head_of-set :
    (buckets : List (Option ℕ)) (b i : ℕ)
    → b < length buckets
    → head_of (set buckets b (some i)) b ≡ some i
unfolding head_of
head_of-set buckets b i h = ap head_in (get_elem?-set_self buckets b (some i) h)

abbrev pub linked_to : Option ℕ → Entry → Entry
linked_to o e = record e { next = o }

-- An insertion that finds no duplicate.
pub global_index_insert_new :
    (i : ℕ) (idx : GlobalIndex) (m : Memory) (e : Entry)
    → get_elem? m.entries i ≡ some e
    → search m idx.buckets idx.num_buckets e.uri_hash e.uri ≡ missing
    → global_index_insert i idx m
      ≡ insert_unless missing (bucket_of e.uri_hash idx.num_buckets) i idx m
unfolding global_index_insert insert_entry
global_index_insert_new i idx m e there new =
    ap (λ o. insert_entry o i idx m) there
    ∙ ap (λ w. insert_unless w (bucket_of e.uri_hash idx.num_buckets) i idx m) new

-- The entry that both indexes were given follows the chain of the backend's.
pub backend_index_insert_at :
    (i : ℕ) (b : BackendIndex) (m : Memory) (e : Entry)
    → get_elem? m.entries i ≡ some e
    → (after : Entry) × ((get_elem? (backend_index_insert i b m).1.entries i ≡ some after)
        × ((after.uri ≡ e.uri)
            × ((after.uri_hash ≡ e.uri_hash)
                × (after.next ≡ head_of b.buckets (bucket_of e.uri_hash b.num_buckets)))))
unfolding backend_index_insert link_entry link index_entry_get
backend_index_insert_at i b m e there =
    let held = λ (x : Entry). record x { entry_refcount = increment x.entry_refcount } in
    let next = head_of b.buckets (bucket_of e.uri_hash b.num_buckets) in
    (
      linked_to next (held e),
      (
        ap (λ o. get_elem? (link_entry o i b m).1.entries i) there
            ∙ update_entry_at i (linked_to next) (update_entry i held m) (held e)
                (update_entry_at i held m e there),
        (refl, (refl, refl)),
      ),
    )

-- An object that the global index finds at the head of a chain is lost once another object of the
-- same chain is inserted into the global index and then into a backend's index whose own chain is
-- empty: the search that found it then finds nothing. The new object is no duplicate, its URI is
-- another, and both entries are in the memory.
pub backend_index_insert-global_index_insert :
    (i k : ℕ) (idx : GlobalIndex) (b : BackendIndex) (m : Memory) (e old : Entry)
    → get_elem? m.entries i ≡ some e
    → get_elem? m.entries k ≡ some old
    → head_of idx.buckets (bucket_of old.uri_hash idx.num_buckets) ≡ some k
    → bucket_of e.uri_hash idx.num_buckets ≡ bucket_of old.uri_hash idx.num_buckets
    → search m idx.buckets idx.num_buckets e.uri_hash e.uri ≡ missing
    → e.uri ≢ old.uri
    → head_of b.buckets (bucket_of e.uri_hash b.num_buckets) ≡ none
    → (search m idx.buckets idx.num_buckets old.uri_hash old.uri ≡ found k)
      × (search
            (backend_index_insert i b (global_index_insert i idx m).1.1).1
            (global_index_insert i idx m).1.0.buckets
            (global_index_insert i idx m).1.0.num_buckets
            old.uri_hash
            old.uri
          ≡ missing)
unfolding insert_unless link matches
backend_index_insert-global_index_insert i k idx b m e old there there_old head same new ne empty =
    let ran = global_index_insert_new i idx m e there new in
    let bucket = bucket_of e.uri_hash idx.num_buckets in
    let m1 = (insert_unless missing bucket i idx m).1.1 in
    let next = head_of idx.buckets bucket in
    let there1 = update_entry_at i (linked_to next) m e there in
    let second = backend_index_insert_at i b m1 (linked_to next e) there1 in
    let after = second.0 in
    let other : bytes_eq after.uri old.uri ≡ false =
      elim (Bool-cases (bytes_eq after.uri old.uri)) [
        | inr differs ↦ differs
        | inl equal ↦ absurd (ne (sym second.1.1.0 ∙ bytes_eq→eq after.uri old.uri equal))
      ] in
    (
      search_head m idx.buckets idx.num_buckets old.uri_hash old.uri k old head there_old
          (matches_self old),
      ap
            (λ (r : Bool × (GlobalIndex × Memory)).
              search (backend_index_insert i b r.1.1).1 r.1.0.buckets r.1.0.num_buckets old.uri_hash
                old.uri)
            ran
          ∙ search_end (backend_index_insert i b m1).1 (set idx.buckets bucket (some i))
              idx.num_buckets old.uri_hash old.uri i after
              (subst (λ c. head_of (set idx.buckets bucket (some i)) c ≡ some i) same
                (head_of-set idx.buckets bucket i (
                  subst (λ c. c < length idx.buckets) (sym same)
                    (head_of-below idx.buckets _ k head))))
              second.1.0 (no_match (after.uri_hash == old.uri_hash) other) (second.1.1.1.1 ∙ empty),
    )
  where
    matches_self : (x : Entry) → matches x x.uri_hash x.uri ≡ true
    matches_self x = ap (λ t. t && bytes_eq x.uri x.uri) (==_self x.uri_hash) ∙ bytes_eq_self x.uri

    no_match : (t : Bool) {u : Bool} → u ≡ false → (t && u) ≡ false
    no_match true h = h
    no_match false h = refl
