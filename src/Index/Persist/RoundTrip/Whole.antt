-- ===== src/Index/Persist/RoundTrip/Whole.antt =====
-- An index file as a whole: what is found in an index that loads what another has saved.
use objmapper.Base.{
  ℕ, zero, suc, ◌≤◌, ◌≡◌, refl, sym, ap, subst, ◌∙◌, true, Option, some, List, [], ◌∷◌, ◌++◌, map,
  length, get_elem?, arith, All,
}
use objmapper.Index.Entry.{Entry, Memory}
use objmapper.Index.Tables.{BackendIndex, next_of}
use objmapper.Index.Links.{Chain, Chain-le}
use objmapper.Index.Persist.{
  SaveAnswers, backend_index_save, backend_index_load, file_bytes, bucket_entries, chain_entries,
  cons_some,
}
use objmapper.Index.Persist.RoundTrip.{IsStored, restored}
use objmapper.Index.Persist.RoundTrip.Files.{IsSavable, loaded, length-map, load-saved_file}
use objmapper.Index.Persist.RoundTrip.Loading.{Chained}
use objmapper.Index.Persist.RoundTrip.Growth.{IsGrown, Placed, insert_all-IsGrown}

-- The entries at the addresses of a list.
abbrev pub At : Memory → List ℕ → List Entry → Type 0
At m [] [] = Unit
At m [] (e ∷ es) = ⊥
At m (i ∷ is) [] = ⊥
At m (i ∷ is) (e ∷ es) = (get_elem? m.entries i ≡ some e) × At m is es

-- The entries along the chains of the buckets, one chain after another.
abbrev pub Listed : Memory → List (Option ℕ) → List Entry → Type 0
Listed m [] es = es ≡ []
Listed m (head ∷ buckets) es =
    (is : List ℕ) × ((front : List Entry) × ((back : List Entry) × (Chain m head is
          × (At m is front × ((es ≡ front ++ back) × Listed m buckets back)))))

chain_entries-At :
    (fuel : ℕ) (m : Memory) (head : Option ℕ) (is : List ℕ) (es : List Entry)
    → length is ≤ fuel
    → Chain m head is
    → At m is es
    → chain_entries fuel m head ≡ es
unfolding chain_entries
chain_entries-At zero m head [] [] h c at = ap (chain_entries zero m) c
chain_entries-At (suc fuel) m head [] [] h c at = ap (chain_entries (suc fuel) m) c
chain_entries-At fuel m head [] (e ∷ es) h c at = absurd at
chain_entries-At fuel m head (i ∷ is) [] h c at = absurd at
chain_entries-At zero m head (i ∷ is) (e ∷ es) h c at = absurd (omega arith)
chain_entries-At (suc fuel) m head (i ∷ is) (e ∷ es) h c at =
    ap (chain_entries (suc fuel) m) c.0
    ∙ ap (λ o. cons_some o (chain_entries fuel m (next_of (get_elem? m.entries i)))) at.0
    ∙ ap (λ o. e ∷ chain_entries fuel m (next_of o)) c.1.1.0
    ∙ ap (◌∷◌ e) (chain_entries-At fuel m c.1.0.next is es (omega arith) c.1.1.1.1 at.1)

bucket_entries-Listed :
    (m : Memory) (buckets : List (Option ℕ)) (es : List Entry)
    → Listed m buckets es
    → bucket_entries m buckets ≡ es
unfolding bucket_entries
bucket_entries-Listed m [] es listed = sym listed
bucket_entries-Listed m (head ∷ buckets) es (is, (front, (back, (chain, (at, (whole, rest)))))) =
    ap (λ xs. xs ++ bucket_entries m buckets)
      (chain_entries-At (length m.entries) m head is front (Chain-le m head is chain) chain at)
    ∙ ap (λ xs. front ++ xs) (bucket_entries-Listed m buckets back rest)
    ∙ sym whole

-- An index is saved, and the file is loaded into another: the load counts the entries `es` of the
-- saved index and puts a copy of each, with its texts, size, time and flags, under the other's
-- backend. A search in that index then finds the copy of the last of them that has the URI, and what
-- it found before where none has it; the entries that the memory held stay as they were. The chains
-- of the saved index hold `es`, which it counts and whose fields fit the file; there are a path and
-- room for the file, and it can be opened and renamed; the chains of the loading index end, and the
-- buckets of the URIs are among its buckets.
pub backend_index_load-backend_index_save :
    (answers : SaveAnswers) (stale padding path path' : List ℕ) (idx target : BackendIndex)
    (m m' : Memory) (es : List Entry)
    → idx.index_file_path ≡ some path
    → target.index_file_path ≡ some path'
    → answers.opened ≡ true
    → answers.renamed ≡ true
    → length (file_bytes padding idx m) ≤ answers.room
    → IsSavable padding idx
    → Listed m idx.buckets es
    → idx.num_entries ≡ length es
    → All IsStored es
    → Placed target es
    → Chained m' target.buckets
    → ((backend_index_save answers padding idx m).0 ≡ true)
      × (((backend_index_load stale (backend_index_save answers padding idx m).1.0 target m').0
            ≡ some (length es))
          × IsGrown es target.backend_id target m'
              (backend_index_load stale
                (backend_index_save answers padding idx m).1.0
                target
                m').1.0
              (backend_index_load stale
                (backend_index_save answers padding idx m).1.0
                target
                m').1.1)
backend_index_load-backend_index_save answers stale padding path path' idx target m m' es here there
      opened renamed room ok listed count stored placed chained =
    let content = bucket_entries-Listed m idx.buckets es listed in
    let ran =
      load-saved_file answers stale padding path path' idx target m m' here there opened renamed
        room ok (count ∙ ap length (sym content)) (subst (All IsStored) (sym content) stored) in
    let grown = insert_all-IsGrown es target.backend_id target m' refl placed chained in
    let copies = map (restored target.backend_id) es in
    let after : backend_index_load stale (backend_index_save answers padding idx m).1.0 target m'
        ≡ loaded copies target m' =
      ran.1 ∙ ap (λ xs. loaded (map (restored target.backend_id) xs) target m') content in
    (
      ran.0,
      subst
          (λ (r : Option ℕ × (BackendIndex × Memory)).
            (r.0 ≡ some (length es)) × IsGrown es target.backend_id target m' r.1.0 r.1.1)
          (sym after)
          (
            ap some (length-map (restored target.backend_id) es),
            record {
              finds = grown.finds;
              copies = grown.copies;
              old = grown.old;
              counted = grown.counted;
            },
          ),
    )
