-- ===== src/Index/Persist/RoundTrip/Loading.antt =====
-- What the insertions of a load do to the searches of the index, one entry after another.
use objmapper.Base.{
  ℕ, zero, suc, ◌+◌, ◌%◌, ◌^◌, ◌<◌, ◌≡◌, ◌≢◌, refl, sym, ap, subst, ◌∙◌, inl, inr, true, Option,
  none, some, List, [], ◌∷◌, ◌++◌, length, get_elem?, set, length-append, length-set, ◌==◌, ==_iff,
  Bool-cases, if◌then◌else◌, arith,
}
use objmapper.Base.Distinct.{Outside, Below}
use objmapper.Index.Entry.{Entry, Memory, update_entry, index_entry_get, increment}
use objmapper.Index.Entry.Balance.{update_entry_at, update_entry_ne}
use objmapper.Index.Tables.{
  BackendIndex, found, search, head_of, bucket_of, matches, link, link_entry, backend_index_insert,
}
use objmapper.Index.Tables.Chains.{linked_to}
use objmapper.Index.Links.{Chain, Chain-Below, search-first_match}
use objmapper.Index.Links.Insert.{
  SameBut, Chain-SameBut, first_match-SameBut, link-SameBut, link_at, link-Chain, link-Chain_other,
  search-link,
}

-- Every bucket has a chain.
abbrev pub Chained : Memory → List (Option ℕ) → Type 0
Chained m buckets = (b : ℕ) → (is : List ℕ) × Chain m (head_of buckets b) is

Below-Outside : (n : ℕ) (is : List ℕ) → Below n is → Outside n is
Below-Outside n [] b = tt
Below-Outside n (i ∷ is) b =
    ((λ e. let less = b.0 in omega (arith, e, less)), Below-Outside n is b.1)

allocated_at : (es : List Entry) (e : Entry) → get_elem? (es ++ e ∷ []) (length es) ≡ some e
allocated_at [] e = refl
allocated_at (x ∷ es) e = allocated_at es e

allocated_ne :
    (es : List Entry) (e : Entry) (j : ℕ)
    → length es ≢ j
    → get_elem? (es ++ e ∷ []) j ≡ get_elem? es j
allocated_ne [] e zero ne = absurd (ne refl)
allocated_ne [] e (suc j) ne = refl
allocated_ne (x ∷ es) e zero ne = refl
allocated_ne (x ∷ es) e (suc j) ne = allocated_ne es e j (λ q. ne (ap suc q))

abbrev referred : Entry → Entry
referred e = record e { entry_refcount = increment e.entry_refcount }

-- A new entry, and the reference that the index takes.
module _ (e : Entry) (idx : BackendIndex) (m : Memory) where
  abbrev held : Memory
  held = index_entry_get (length m.entries) (record m { entries = m.entries ++ e ∷ [] })

  held_at : get_elem? held.entries (length m.entries) ≡ some (referred e)
  unfolding index_entry_get
  held_at =
      update_entry_at (length m.entries) referred (record m { entries = m.entries ++ e ∷ [] }) e
        (allocated_at m.entries e)

  held-SameBut : SameBut (length m.entries) m held
  unfolding index_entry_get
  held-SameBut j ne =
      update_entry_ne (length m.entries) j referred (record m { entries = m.entries ++ e ∷ [] }) e
        (allocated_at m.entries e) ne
      ∙ allocated_ne m.entries e j ne

length-update_entry :
    (i : ℕ) (change : Entry → Entry) (m : Memory)
    → length (update_entry i change m).entries ≡ length m.entries
length-update_entry i change m = on (get_elem? m.entries i)
  where
    on :
        (o : Option Entry)
        → length (elim o [ none ↦ m.entries | some x ↦ set m.entries i (change x) ])
          ≡ length m.entries
    on none = refl
    on (some x) = length-set m.entries i (change x)

-- The second entry has the texts and the numbers of the first, and this backend.
pub record IsCopy (backend_id : ℕ) (e x : Entry) : Type 0 where
  pub uri : x.uri ≡ e.uri
  pub path : x.backend_path ≡ e.backend_path
  pub size : x.size_bytes ≡ e.size_bytes
  pub time : x.mtime ≡ e.mtime
  pub flags : x.flags ≡ e.flags
  pub backend : x.backend_id ≡ backend_id

-- One entry more, at the end of the memory.
pub record Inserted (e : Entry) (idx : BackendIndex) (m : Memory) (r : BackendIndex × Memory)
    : Type 0 where
  pub size : length r.1.entries ≡ suc (length m.entries)
  pub same : SameBut (length m.entries) m r.1
  pub new :
      (x : Entry) × ((get_elem? r.1.entries (length m.entries) ≡ some x) × IsCopy e.backend_id e x)
  pub chained : Chained r.1 r.0.buckets
  pub own : r.0.backend_id ≡ idx.backend_id
  pub number : r.0.num_buckets ≡ idx.num_buckets
  pub width : length r.0.buckets ≡ length idx.buckets
  pub counted : r.0.num_entries ≡ (idx.num_entries + 1) % 2 ^ 64
  pub searched :
      (hash : ℕ) (uri : List ℕ)
      → search r.1 r.0.buckets idx.num_buckets hash uri ≡ (
          if matches e hash uri
          then found (length m.entries)
          else search m idx.buckets idx.num_buckets hash uri)

module _ (e : Entry) (idx : BackendIndex) (m : Memory)
    (below : bucket_of e.uri_hash idx.num_buckets < length idx.buckets)
    (chained : Chained m idx.buckets) where
  abbrev place : ℕ
  place = bucket_of e.uri_hash idx.num_buckets

  abbrev linked : List (Option ℕ) × Memory
  linked = link place (length m.entries) idx.buckets (held e idx m)

  outside : (b : ℕ) → Outside (length m.entries) (chained b).0
  outside b =
      Below-Outside (length m.entries) (chained b).0
        (Chain-Below m (head_of idx.buckets b) (chained b).0 (chained b).1)

  held-Chain : (b : ℕ) → Chain (held e idx m) (head_of idx.buckets b) (chained b).0
  held-Chain b =
      Chain-SameBut (length m.entries) m (held e idx m) (head_of idx.buckets b) (chained b).0
        (held-SameBut e idx m) (outside b) (chained b).1

  linked-Chained : Chained linked.1 linked.0
  linked-Chained b = elim (Bool-cases (place == b)) [
    | inl same ↦
        let pb : place ≡ b = (==_iff place b).0 same in
        subst (λ k. (is : List ℕ) × Chain linked.1 (head_of linked.0 k) is) pb
          (
            length m.entries ∷ (chained place).0,
            link-Chain (length m.entries) (referred e) place idx.buckets (held e idx m)
                (held_at e idx m) below (chained place).0 (outside place) (held-Chain place),
          )
    | inr other ↦
        let ne : place ≢ b = ground arith in
        (
          (chained b).0,
          link-Chain_other (length m.entries) (referred e) place idx.buckets (held e idx m)
              (held_at e idx m) below b (chained b).0 ne (outside b) (held-Chain b),
        )
  ]

  held-search :
      (hash : ℕ) (uri : List ℕ)
      → search (held e idx m) idx.buckets idx.num_buckets hash uri
        ≡ search m idx.buckets idx.num_buckets hash uri
  held-search hash uri =
      let b = bucket_of hash idx.num_buckets in
      search-first_match (held e idx m) idx.buckets idx.num_buckets hash uri (chained b).0
        (held-Chain b)
      ∙ first_match-SameBut (length m.entries) m (held e idx m) hash uri (chained b).0
          (held-SameBut e idx m) (outside b)
      ∙ sym (search-first_match m idx.buckets idx.num_buckets hash uri (chained b).0 (chained b).1)

  linked-Inserted : Inserted e idx m (
    record idx { buckets = linked.0; num_entries = (idx.num_entries + 1) % 2 ^ 64; dirty = true },
    linked.1,
  )
  unfolding link index_entry_get matches
  linked-Inserted = record {
    size =
        length-update_entry (length m.entries) (linked_to (head_of idx.buckets place))
          (held e idx m)
        ∙ length-update_entry (length m.entries) referred
            (record m { entries = m.entries ++ e ∷ [] })
        ∙ length-append m.entries (e ∷ [])
        ∙ omega arith;
    same = λ j ne.
        link-SameBut (length m.entries) (referred e) place idx.buckets (held e idx m)
          (held_at e idx m) below j ne
        ∙ held-SameBut e idx m j ne;
    new = (
      linked_to (head_of idx.buckets place) (referred e),
      (
        link_at (length m.entries) (referred e) place idx.buckets (held e idx m) (held_at e idx m)
            below,
        record { uri = refl; path = refl; size = refl; time = refl; flags = refl; backend = refl },
      ),
    );
    chained = linked-Chained;
    own = refl;
    number = refl;
    width = length-set idx.buckets place (some (length m.entries));
    counted = refl;
    searched = λ hash uri.
        search-link (length m.entries) (referred e) place idx.buckets (held e idx m)
          (held_at e idx m) below idx.num_buckets hash uri
          (chained (bucket_of hash idx.num_buckets)).0 refl
          (held-Chain (bucket_of hash idx.num_buckets)) (outside (bucket_of hash idx.num_buckets))
        ∙ ap (λ w. if matches e hash uri then found (length m.entries) else w)
            (held-search hash uri);
  }

  pub inserted :
      Inserted e idx m
        (backend_index_insert (length m.entries) idx (record m { entries = m.entries ++ e ∷ [] }))
  unfolding backend_index_insert link_entry
  inserted =
      subst (Inserted e idx m)
        (ap (λ o. link_entry o (length m.entries) idx (record m { entries = m.entries ++ e ∷ [] }))
          (sym (allocated_at m.entries e)))
        linked-Inserted
