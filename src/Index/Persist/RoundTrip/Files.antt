-- ===== src/Index/Persist/RoundTrip/Files.antt =====
-- A whole index file that is saved is read back.
use objmapper.Base.{
  ℕ, suc, ◌^◌, ◌≤◌, ◌<◌, ◌≡◌, refl, sym, ap, ◌∙◌, Bool, true, false, not, Option, none, some, List,
  [], ◌∷◌, ◌++◌, append_assoc, append-nil, map, length, length-append, take, drop, take-append,
  drop-append, drop-drop, take_short, ltb, le→ltb_false, ◌==◌, bytes_eq, bytes_eq_self, slice,
  if◌then◌else◌, if_eq_false, if-not-true, arith, All,
}
use objmapper.Base.Little.{le, of_le, length-le, of_le-le}
use objmapper.Index.Entry.{Entry, Memory}
use objmapper.Index.Tables.{BackendIndex}
use objmapper.Index.Persist.{
  header_bytes, index_magic, index_version, entry_bytes, entries_bytes, bucket_entries, file_bytes,
  SaveAnswers, backend_index_save, read_entries, insert_all, load_body, load_header, read_header,
  backend_index_load,
}
use objmapper.Index.Persist.RoundTrip.{IsStored, restored, read_entry-append, read_exact-append}

read_entries-append :
    (stale : List ℕ) (backend_id : ℕ) (es : List Entry) (rest : List ℕ)
    → All IsStored es
    → read_entries (length es) stale backend_id (entries_bytes es ++ rest)
      ≡ map (restored backend_id) es
unfolding read_entries entries_bytes
read_entries-append stale backend_id [] rest ok = refl
read_entries-append stale backend_id (e ∷ es) rest ok =
    ap (read_entries (suc (length es)) stale backend_id)
      (append_assoc (entry_bytes e) (entries_bytes es) rest)
    ∙ ap
        (λ (o : Option (Entry × List ℕ)). elim o [
          | none ↦ []
          | some r ↦ r.0 ∷ read_entries (length es) stale backend_id r.1
        ])
        (read_entry-append stale (entries_bytes es ++ rest) e ok.0 backend_id)
    ∙ ap (◌∷◌ (restored backend_id e)) (read_entries-append stale backend_id es rest ok.1)

pub length-map : (f : Entry → Entry) (es : List Entry) → length (map f es) ≡ length es
length-map f [] = refl
length-map f (e ∷ es) = ap suc (length-map f es)

-- An index and its padding that fit the header.
pub record IsSavable (padding : List ℕ) (idx : BackendIndex) : Type 0 where
  pub padded : length padding ≡ 4
  pub id_fits : idx.backend_id < 2 ^ 32
  pub entries_fit : idx.num_entries < 2 ^ 64

module _ (padding : List ℕ) (idx : BackendIndex) (ok : IsSavable padding idx) where
  after_magic : List ℕ
  after_magic =
      le 2 index_version
      ++ (le 4 idx.backend_id ++ (padding ++ (le 8 idx.num_entries ++ le 8 idx.num_buckets)))

  length-header_bytes : length (header_bytes padding idx) ≡ 32
  unfolding header_bytes
  length-header_bytes =
      let a = length-append (le 8 idx.num_entries) (le 8 idx.num_buckets) in
      let b = length-append padding (le 8 idx.num_entries ++ le 8 idx.num_buckets) in
      let c =
        length-append (le 4 idx.backend_id)
          (padding ++ (le 8 idx.num_entries ++ le 8 idx.num_buckets)) in
      let d =
        length-append (le 2 index_version)
          (le 4 idx.backend_id ++ (padding ++ (le 8 idx.num_entries ++ le 8 idx.num_buckets))) in
      let padded = ok.padded in
      omega (
        arith,
        a,
        b,
        c,
        d,
        padded,
        length-le 8 idx.num_entries,
        length-le 8 idx.num_buckets,
        length-le 4 idx.backend_id,
        length-le 2 index_version,
      )

  magic_read : take 6 (header_bytes padding idx) ≡ index_magic
  unfolding header_bytes after_magic
  magic_read = take-append 6 index_magic after_magic refl

  version_read : of_le (slice 6 2 (header_bytes padding idx)) ≡ index_version
  unfolding header_bytes after_magic
  version_read =
      ap (λ xs. of_le (take 2 xs)) (drop-append 6 index_magic after_magic refl)
      ∙ ap of_le (take-append 2 (le 2 index_version) _ (length-le 2 index_version))
      ∙ of_le-le 2 index_version (omega arith)

  count_read : of_le (slice 16 8 (header_bytes padding idx)) ≡ idx.num_entries
  unfolding header_bytes after_magic
  count_read =
      let header = header_bytes padding idx in
      let steps : drop 16 header ≡ drop 4 (drop 4 (drop 2 (drop 6 header))) = sym (
        ap (λ xs. drop 4 (drop 4 xs)) (drop-drop 6 2 header)
        ∙ ap (drop 4) (drop-drop 8 4 header)
        ∙ drop-drop 12 4 header) in
      ap (λ xs. of_le (take 8 xs))
        (steps
          ∙ ap (λ xs. drop 4 (drop 4 (drop 2 xs))) (drop-append 6 index_magic after_magic refl)
          ∙ ap (λ xs. drop 4 (drop 4 xs))
              (drop-append 2 (le 2 index_version) _ (length-le 2 index_version))
          ∙ ap (drop 4) (drop-append 4 (le 4 idx.backend_id) _ (length-le 4 idx.backend_id))
          ∙ drop-append 4 padding _ ok.padded)
      ∙ ap of_le (take-append 8 (le 8 idx.num_entries) _ (length-le 8 idx.num_entries))
      ∙ of_le-le 8 idx.num_entries ok.entries_fit

-- What a load of the entries gives.
abbrev pub loaded : List Entry → BackendIndex → Memory → Option ℕ × (BackendIndex × Memory)
loaded es idx m =
    (some (length es), (record (insert_all es idx m).0 { dirty = false }, (insert_all es idx m).1))

load_body-header_bytes :
    (stale padding : List ℕ) (idx : BackendIndex) (es : List Entry) (target : BackendIndex)
    (m : Memory)
    → IsSavable padding idx
    → idx.num_entries ≡ length es
    → All IsStored es
    → load_body stale target m (header_bytes padding idx) (entries_bytes es)
      ≡ loaded (map (restored target.backend_id) es) target m
unfolding load_body
load_body-header_bytes stale padding idx es target m ok count stored =
    let header = header_bytes padding idx in
    let read =
      ap (λ n. read_entries n stale target.backend_id (entries_bytes es))
        (count_read padding idx ok ∙ count)
      ∙ ap (read_entries (length es) stale target.backend_id) (sym (append-nil (entries_bytes es)))
      ∙ read_entries-append stale target.backend_id es [] stored in
    if-not-true (bytes_eq (take 6 header) index_magic) _ _
      (ap (λ xs. bytes_eq xs index_magic) (magic_read padding idx ok) ∙ bytes_eq_self index_magic)
    ∙ if-not-true (of_le (slice 6 2 header) == index_version) _ _
        (ap (λ n. n == index_version) (version_read padding idx ok))
    ∙ ap (λ xs. loaded xs target m) read

-- An index is saved to a file, and an index that loads the file inserts as many entries, with the
-- same texts, sizes, times and flags, in the order of the chains, under its own backend's id. The
-- index counts its entries, their fields fit the file, there are a path and room for the file, and
-- it can be opened and renamed.
pub load-saved_file :
    (answers : SaveAnswers) (stale padding path path' : List ℕ) (idx target : BackendIndex)
    (m m' : Memory)
    → idx.index_file_path ≡ some path
    → target.index_file_path ≡ some path'
    → answers.opened ≡ true
    → answers.renamed ≡ true
    → length (file_bytes padding idx m) ≤ answers.room
    → IsSavable padding idx
    → idx.num_entries ≡ length (bucket_entries m idx.buckets)
    → All IsStored (bucket_entries m idx.buckets)
    → ((backend_index_save answers padding idx m).0 ≡ true)
      × (backend_index_load stale (backend_index_save answers padding idx m).1.0 target m'
          ≡ loaded (map (restored target.backend_id) (bucket_entries m idx.buckets)) target m')
unfolding backend_index_save backend_index_load load_header file_bytes
load-saved_file answers stale padding path path' idx target m m' here there opened renamed room ok
      count stored =
    let es = bucket_entries m idx.buckets in
    let header = header_bytes padding idx in
    let file = file_bytes padding idx m in
    let fits : ltb answers.room (length header) ≡ false =
      le→ltb_false answers.room (length header)
        (omega (arith, room, length-append header (entries_bytes es))) in
    let saved : Bool × (Option (List ℕ) × BackendIndex) =
      (true, (some (take answers.room file), record idx { dirty = false })) in
    let failure : Bool × (Option (List ℕ) × BackendIndex) = (false, (none, idx)) in
    let ran : backend_index_save answers padding idx m ≡ saved =
      ap {B = Bool × (Option (List ℕ) × BackendIndex)}
        (λ (o : Option (List ℕ)). elim o [
          | none ↦ failure
          | some p ↦
              if not answers.opened
              then failure
              else if ltb answers.room (length header)
              then failure
              else if not answers.renamed
              then failure
              else saved
        ])
        here
      ∙ if-not-true answers.opened _ _ opened
      ∙ if_eq_false (ltb answers.room (length header)) _ _ fits
      ∙ if-not-true answers.renamed _ _ renamed in
    (
      ap (λ (r : Bool × (Option (List ℕ) × BackendIndex)). r.0) ran,
      ap (λ (r : Bool × (Option (List ℕ) × BackendIndex)). backend_index_load stale r.1.0 target m')
            ran
          ∙ ap (λ xs. backend_index_load stale (some xs) target m')
              (take_short answers.room file room)
          ∙ ap {B = Option ℕ × (BackendIndex × Memory)}
              (λ (o : Option (List ℕ)). elim o [
                | none ↦ (none, (target, m'))
                | some p ↦ load_header stale target m' (read_header (some file))
              ])
              there
          ∙ ap (load_header stale target m')
              (read_exact-append 32 header (entries_bytes es) (length-header_bytes padding idx ok))
          ∙ load_body-header_bytes stale padding idx es target m' ok count stored,
    )
