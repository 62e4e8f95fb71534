-- ===== src/Index/Links/First.antt =====
-- What a search finds, said by the hashes and the texts of the entries alone.
use objmapper.Base.{
  ℕ, ◌≡◌, ◌⊎◌, refl, sym, ap, subst, ◌∙◌, inl, inr, Bool, true, false, ◌&&◌, Option, some, List, [],
  ◌∷◌, get_elem?, ◌==◌, ==_iff, ==_self, bytes_eq, bytes_eq_self, bytes_eq→eq, Bool-cases,
  if◌then◌else◌, if_eq_true, if_eq_false,
}
use objmapper.Index.Entry.{Entry, Memory}
use objmapper.Index.Tables.{Walk, found, missing, walk_entry, search, head_of, bucket_of, matches}
use objmapper.Index.Links.{Chain, first_match, search-first_match}

-- The entry has this hash and this URI.
abbrev pub Fits : Entry → ℕ → List ℕ → Type 0
Fits e hash uri = (e.uri_hash ≡ hash) × (e.uri ≡ uri)

-- `w` is the address of the first entry of the list that fits, or `missing` where none does.
abbrev pub IsFirst : Memory → ℕ → List ℕ → List ℕ → Walk → Type 0
IsFirst m hash uri [] w = w ≡ missing
IsFirst m hash uri (i ∷ is) w =
    (e : Entry) × ((get_elem? m.entries i ≡ some e)
      × ((Fits e hash uri × (w ≡ found i)) ⊎ ((¬ Fits e hash uri) × IsFirst m hash uri is w)))

and-both : (a b : Bool) → (a && b) ≡ true → (a ≡ true) × (b ≡ true)
and-both true b h = (refl, h)
and-both false b h = cc

matches-Fits : (e : Entry) (hash : ℕ) (uri : List ℕ) → matches e hash uri ≡ true → Fits e hash uri
unfolding matches
matches-Fits e hash uri h =
    let both = and-both (e.uri_hash == hash) (bytes_eq e.uri uri) h in
    ((==_iff e.uri_hash hash).0 both.0, bytes_eq→eq e.uri uri both.1)

Fits-matches : (e : Entry) (hash : ℕ) (uri : List ℕ) → Fits e hash uri → matches e hash uri ≡ true
unfolding matches
Fits-matches e hash uri fit =
    ap (λ h. (e.uri_hash == h) && bytes_eq e.uri uri) (sym fit.0)
    ∙ ap (λ u. (e.uri_hash == e.uri_hash) && bytes_eq e.uri u) (sym fit.1)
    ∙ ap (λ t. t && bytes_eq e.uri e.uri) (==_self e.uri_hash)
    ∙ bytes_eq_self e.uri

first_match-IsFirst :
    (m : Memory) (hash : ℕ) (uri : List ℕ) (o : Option ℕ) (is : List ℕ)
    → Chain m o is
    → IsFirst m hash uri is (first_match m hash uri is)
unfolding first_match walk_entry
first_match-IsFirst m hash uri o [] c = refl
first_match-IsFirst m hash uri o (i ∷ is) c =
    let e = c.1.0 in
    let rest = first_match m hash uri is in
    let here : first_match m hash uri (i ∷ is) ≡ (if matches e hash uri then found i else rest) =
      ap (λ o. walk_entry o i hash uri rest) c.1.1.0 in
    (
      e,
      (
        c.1.1.0,
        elim (Bool-cases (matches e hash uri)) [
          | inl on ↦
              inl (
                matches-Fits e hash uri on,
                here ∙ if_eq_true (matches e hash uri) (found i) rest on,
              )
          | inr off ↦ inr (
            (λ fit. let on = Fits-matches e hash uri fit in let never = sym on ∙ off in cc),
            subst (IsFirst m hash uri is)
                (sym (here ∙ if_eq_false (matches e hash uri) (found i) rest off))
                (first_match-IsFirst m hash uri e.next is c.1.1.1.1),
          )
        ],
      ),
    )

-- A search ends, at the first entry of the chain whose hash and URI are the ones searched for, or
-- with none where no entry of the chain has both. The bucket of the hash has a chain.
pub search-IsFirst :
    (m : Memory) (buckets : List (Option ℕ)) (num_buckets hash : ℕ) (uri is : List ℕ)
    → Chain m (head_of buckets (bucket_of hash num_buckets)) is
    → IsFirst m hash uri is (search m buckets num_buckets hash uri)
search-IsFirst m buckets num_buckets hash uri is c =
    subst (IsFirst m hash uri is) (sym (search-first_match m buckets num_buckets hash uri is c))
      (first_match-IsFirst m hash uri (head_of buckets (bucket_of hash num_buckets)) is c)
