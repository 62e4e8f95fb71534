-- ===== src/Index/Links.antt =====
-- The chains of an index as lists of addresses.
pub mod Insert
pub mod Locate
pub mod Remove
pub mod Laws
pub mod First
use objmapper.Base.{
  ℕ, zero, suc, ◌≤◌, ◌<◌, ◌≡◌, ◌≢◌, refl, sym, ap, subst, ◌∙◌, Option, none, some, List, [], ◌∷◌,
  length, get_elem?, arith,
}
use objmapper.Base.Distinct.{Outside, Distinct, Below, Distinct-le}
use objmapper.Index.Entry.{Entry, Memory}
use objmapper.Index.Entry.Balance.{below}
use objmapper.Index.Tables.{Walk, missing, walk, walk_entry, next_of, search, head_of, bucket_of}

-- From the head the links lead through the entries at these addresses, all different, and end.
abbrev pub Chain : Memory → Option ℕ → List ℕ → Type 0
Chain m head [] = head ≡ none
Chain m head (i ∷ is) =
    (head ≡ some i)
    × ((e : Entry) × ((get_elem? m.entries i ≡ some e) × (Outside i is × Chain m e.next is)))

-- The first entry of a list that has the URI.
unfoldable pub first_match : Memory → ℕ → List ℕ → List ℕ → Walk
first_match m hash uri [] = missing
first_match m hash uri (i ∷ is) =
    walk_entry (get_elem? m.entries i) i hash uri (first_match m hash uri is)

Chain-Distinct : (m : Memory) (head : Option ℕ) (is : List ℕ) → Chain m head is → Distinct is
Chain-Distinct m head [] c = tt
Chain-Distinct m head (i ∷ is) c = (c.1.1.1.0, Chain-Distinct m c.1.0.next is c.1.1.1.1)

pub Chain-Below :
    (m : Memory) (head : Option ℕ) (is : List ℕ) → Chain m head is → Below (length m.entries) is
Chain-Below m head [] c = tt
Chain-Below m head (i ∷ is) c =
    (below m.entries i c.1.0 c.1.1.0, Chain-Below m c.1.0.next is c.1.1.1.1)

-- A chain has no more entries than the memory.
pub Chain-le :
    (m : Memory) (head : Option ℕ) (is : List ℕ) → Chain m head is → length is ≤ length m.entries
Chain-le m head is c =
    Distinct-le (length m.entries) is (Chain-Distinct m head is c) (Chain-Below m head is c)

walk-first_match :
    (fuel : ℕ) (m : Memory) (hash : ℕ) (uri : List ℕ) (head : Option ℕ) (is : List ℕ)
    → length is ≤ fuel
    → Chain m head is
    → walk fuel m hash uri head ≡ first_match m hash uri is
unfolding walk first_match
walk-first_match zero m hash uri head [] h c = ap (walk zero m hash uri) c
walk-first_match (suc fuel) m hash uri head [] h c = ap (walk (suc fuel) m hash uri) c
walk-first_match zero m hash uri head (i ∷ is) h c = absurd (omega arith)
walk-first_match (suc fuel) m hash uri head (i ∷ is) h c =
    ap (walk (suc fuel) m hash uri) c.0
    ∙ ap (λ o. walk_entry (get_elem? m.entries i) i hash uri (walk fuel m hash uri (next_of o)))
        c.1.1.0
    ∙ ap (walk_entry (get_elem? m.entries i) i hash uri)
        (walk-first_match fuel m hash uri c.1.0.next is (omega arith) c.1.1.1.1)

-- A search is a walk over the list of the chain, for which its fuel is enough.
pub search-first_match :
    (m : Memory) (buckets : List (Option ℕ)) (num_buckets hash : ℕ) (uri is : List ℕ)
    → Chain m (head_of buckets (bucket_of hash num_buckets)) is
    → search m buckets num_buckets hash uri ≡ first_match m hash uri is
unfolding search
search-first_match m buckets num_buckets hash uri is c =
    walk-first_match (length m.entries) m hash uri _ is (Chain-le m _ is c) c
