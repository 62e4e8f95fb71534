-- ===== src/Index/Persist/RoundTrip/Growth.antt =====
-- What a load adds to an index, and what is found there afterwards.
use objmapper.Base.{
  ℕ, suc, ◌+◌, ◌%◌, ◌^◌, ◌<◌, ◌≡◌, refl, sym, ap, subst, ◌∙◌, inl, inr, Bool, true, false, ◌&&◌,
  some, List, [], ◌∷◌, ◌++◌, map, length, get_elem?, ◌==◌, ==_self, bytes_eq, bytes_eq→eq,
  Bool-cases, if◌then◌else◌, arith, All,
}
use objmapper.Index.Entry.{Entry, Memory, index_entry_create, index_hash_string}
use objmapper.Index.Tables.{
  BackendIndex, Walk, found, search, bucket_of, matches, backend_index_insert,
}
use objmapper.Index.Persist.{insert_all}
use objmapper.Index.Persist.RoundTrip.{restored}
use objmapper.Index.Persist.RoundTrip.Loading.{Chained, IsCopy, inserted}

-- The last entry of a list that has the URI, where the entries stand one after another from the
-- address `n`, or what `before` says where none has it.
unfoldable pub latest : List ℕ → ℕ → List Entry → Walk → Walk
latest uri n [] before = before
latest uri n (e ∷ es) before =
    latest uri (suc n) es (if bytes_eq e.uri uri then found n else before)

-- Copies of the entries of a list stand one after another from the address `n`.
abbrev pub Copies : Memory → ℕ → ℕ → List Entry → Type 0
Copies m backend_id n [] = Unit
Copies m backend_id n (e ∷ es) =
    ((x : Entry) × ((get_elem? m.entries n ≡ some x) × IsCopy backend_id e x))
    × Copies m backend_id (suc n) es

-- The entries of the list are in the index, under its backend, and what was there still is, unless
-- it has the URI of one of them.
pub record IsGrown (es : List Entry) (backend_id : ℕ) (idx : BackendIndex) (m : Memory)
    (idx' : BackendIndex) (m' : Memory) : Type 0 where
  pub finds :
      (uri : List ℕ)
      → search m' idx'.buckets idx'.num_buckets (index_hash_string uri) uri
        ≡ latest uri
            (length m.entries)
            es
            (search m idx.buckets idx.num_buckets (index_hash_string uri) uri)
  pub copies : Copies m' backend_id (length m.entries) es
  pub old : (j : ℕ) → j < length m.entries → get_elem? m'.entries j ≡ get_elem? m.entries j
  pub counted : idx'.num_entries % 2 ^ 64 ≡ (idx.num_entries + length es) % 2 ^ 64

-- The bucket of each URI is one of the buckets.
abbrev pub Placed : BackendIndex → List Entry → Type 0
Placed idx es =
    All (λ e. bucket_of (index_hash_string e.uri) idx.num_buckets < length idx.buckets) es

matches-hashed :
    (e : Entry) (uri : List ℕ)
    → e.uri_hash ≡ index_hash_string e.uri
    → matches e (index_hash_string uri) uri ≡ bytes_eq e.uri uri
unfolding matches
matches-hashed e uri h = elim (Bool-cases (bytes_eq e.uri uri)) [
  | inl same ↦
      let texts = bytes_eq→eq e.uri uri same in
      ap (λ k. (k == index_hash_string uri) && bytes_eq e.uri uri) (h ∙ ap index_hash_string texts)
      ∙ ap (λ b. b && bytes_eq e.uri uri) (==_self (index_hash_string uri))
  | inr other ↦
      ap (λ b. (e.uri_hash == index_hash_string uri) && b) other
      ∙ neither (e.uri_hash == index_hash_string uri)
      ∙ sym other
]
  where
    neither : (b : Bool) → (b && false) ≡ false
    neither true = refl
    neither false = refl

Placed-same :
    (idx idx' : BackendIndex) (es : List Entry)
    → idx'.num_buckets ≡ idx.num_buckets
    → length idx'.buckets ≡ length idx.buckets
    → Placed idx es
    → Placed idx' es
Placed-same idx idx' [] number width h = tt
Placed-same idx idx' (e ∷ es) number width h = (
  subst (λ k. bucket_of (index_hash_string e.uri) k < length idx'.buckets) (sym number)
      (subst (λ k. bucket_of (index_hash_string e.uri) idx.num_buckets < k) (sym width) h.0),
  Placed-same idx idx' es number width h.1,
)

IsCopy-restored :
    (backend_id : ℕ) (e x : Entry)
    → IsCopy (restored backend_id e).backend_id (restored backend_id e) x
    → IsCopy backend_id e x
unfolding restored index_entry_create
IsCopy-restored backend_id e x c = record {
  uri = c.uri;
  path = c.path;
  size = c.size;
  time = c.time;
  flags = c.flags;
  backend = c.backend;
}

pub insert_all-IsGrown :
    (es : List Entry) (backend_id : ℕ) (idx : BackendIndex) (m : Memory)
    → idx.backend_id ≡ backend_id
    → Placed idx es
    → Chained m idx.buckets
    → IsGrown es backend_id idx m
        (insert_all (map (restored backend_id) es) idx m).0
        (insert_all (map (restored backend_id) es) idx m).1
unfolding insert_all latest restored index_entry_create
insert_all-IsGrown [] backend_id idx m own placed chained = record {
  finds = λ uri. refl;
  copies = tt;
  old = λ j h. refl;
  counted = omega arith;
}
insert_all-IsGrown (e ∷ es) backend_id idx m own placed chained =
    let n = length m.entries in
    let new = restored backend_id e in
    let r = backend_index_insert n idx (record m { entries = m.entries ++ new ∷ [] }) in
    let ins = inserted new idx m placed.0 chained in
    let rest =
      insert_all-IsGrown es backend_id r.0 r.1 (ins.own ∙ own)
        (Placed-same idx r.0 es ins.number ins.width placed.1) ins.chained in
    let size = ins.size in
    let once = ins.counted in
    let others = rest.counted in
    record {
      finds = λ uri.
          rest.finds uri
          ∙ ap
              (λ k.
                latest uri k es
                  (search r.1 r.0.buckets r.0.num_buckets (index_hash_string uri) uri))
              size
          ∙ ap (latest uri (suc n) es) (
              ap (λ k. search r.1 r.0.buckets k (index_hash_string uri) uri) ins.number
              ∙ ins.searched (index_hash_string uri) uri
              ∙ ap
                  (λ (b : Bool).
                    if b
                    then found n
                    else search m idx.buckets idx.num_buckets (index_hash_string uri) uri)
                  (matches-hashed new uri refl));
      copies = (
        (
          ins.new.0,
          (
            rest.old n (omega (arith, size)) ∙ ins.new.1.0,
            IsCopy-restored backend_id e ins.new.0 ins.new.1.1,
          ),
        ),
        subst (λ k. Copies (insert_all (map (restored backend_id) es) r.0 r.1).1 backend_id k es)
            size rest.copies,
      );
      old = λ j h. rest.old j (omega (arith, h, size)) ∙ ins.same j (λ q. omega (arith, q, h));
      counted = omega (arith, once, others);
    }
