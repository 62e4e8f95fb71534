-- ===== src/Storage/Objects/Consistent.antt =====
-- What every operation keeps: the count, the sizes, and a table that finds every object.
use objmapper.Base.{ℕ, ◌%◌, ◌<◌, ◌≡◌, sym, ap, subst, ◌∙◌, none, some, List, [], length, get_elem?}
use objmapper.Storage.Types.{Storage, HashEntry}
use objmapper.Storage.Table.{chain, hash_uri}
use objmapper.Storage.Table.Lookup.{Listed, IsIndexed}
use objmapper.Storage.Objects.Keeps.{Keeps, count_used}

pub record IsConsistent (s : Storage) : Type 0 where
  pub slots : length s.objects ≡ s.capacity
  pub buckets : length s.hash_table ≡ s.hash_size
  pub sized : 0 < s.hash_size
  pub counted : s.count ≡ count_used s.objects
  pub indexed : IsIndexed s

abbrev pub chain_in : List (List HashEntry) → ℕ → List HashEntry
chain_in table bucket = elim (get_elem? table bucket) [ none ↦ [] | some entries ↦ entries ]

pub Keeps-chain : {i : ℕ} {s t : Storage} (hash : ℕ) → Keeps i s t → chain s hash ≡ chain t hash
unfolding chain
Keeps-chain {i} {s} {t} hash k =
    ap (λ table. chain_in table (hash % s.hash_size)) (sym k.table)
    ∙ ap (λ size. chain_in t.hash_table (hash % size)) (sym k.hash_size)

pub Keeps-IsIndexed : {i : ℕ} {s t : Storage} → Keeps i s t → IsIndexed s → IsIndexed t
Keeps-IsIndexed {i} {s} {t} k ok = record {
  listed = λ j uri held.
      subst (Listed (hash_uri uri) j) (Keeps-chain (hash_uri uri) k)
        (ok.listed j uri (sym (k.held j uri) ∙ held));
  unique = λ j l uri first second.
      ok.unique j l uri (sym (k.held j uri) ∙ first) (sym (k.held l uri) ∙ second);
}

pub Keeps-IsConsistent : {i : ℕ} {s t : Storage} → Keeps i s t → IsConsistent s → IsConsistent t
Keeps-IsConsistent {i} {s} {t} k ok = record {
  slots = k.slots ∙ ok.slots ∙ sym k.capacity;
  buckets = ap length k.table ∙ ok.buckets ∙ sym k.hash_size;
  sized = subst (λ n. 0 < n) (sym k.hash_size) ok.sized;
  counted = k.count ∙ ok.counted ∙ sym k.used;
  indexed = Keeps-IsIndexed k ok.indexed;
}
