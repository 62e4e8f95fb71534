-- ===== src/Index/Persist.antt =====
-- lib/index/index.c: the index file of a backend, backend_index_save and backend_index_load. A file
-- is the list of its bytes; the reads of one load and the writes of one save are on one file.
pub mod RoundTrip
use objmapper.Base.{
  ℕ, zero, suc, ◌+◌, ◌-◌, ◌%◌, ◌^◌, Bool, true, false, not, Option, none, some, List, [], ◌∷◌, ◌++◌,
  length, get_elem?, take, drop, ltb, leb, ◌==◌, bytes_eq, slice, if◌then◌else◌,
}
use objmapper.Base.Little.{le, of_le}
use objmapper.Index.Entry.{Entry, Memory, index_entry_create}
use objmapper.Index.Tables.{BackendIndex, next_of, backend_index_insert}

-- INDEX_MAGIC, "OBJIDX".
abbrev pub index_magic : List ℕ
index_magic = b'O' ∷ b'B' ∷ b'J' ∷ b'I' ∷ b'D' ∷ b'X' ∷ []

abbrev pub index_version : ℕ
index_version = 1

-- The header as the compiler lays it out: four bytes stand between backend_id and num_entries.
unfoldable pub header_bytes : List ℕ → BackendIndex → List ℕ
header_bytes padding idx =
    index_magic
    ++ (le 2 index_version
        ++ (le 4 idx.backend_id ++ (padding ++ (le 8 idx.num_entries ++ le 8 idx.num_buckets))))

-- A text after its length, which is cut to 16 bits.
unfoldable pub string_bytes : List ℕ → List ℕ
string_bytes text = let len = length text % 2 ^ 16 in le 2 len ++ take len text

unfoldable pub entry_bytes : Entry → List ℕ
entry_bytes e =
    string_bytes e.uri
    ++ (string_bytes e.backend_path ++ (le 8 e.size_bytes ++ (le 8 e.mtime ++ le 4 e.flags)))

abbrev cons_some : Option Entry → List Entry → List Entry
cons_some none es = es
cons_some (some e) es = e ∷ es

-- The entries along a chain, on fuel.
unfoldable pub chain_entries : ℕ → Memory → Option ℕ → List Entry
chain_entries fuel m none = []
chain_entries zero m (some i) = []
chain_entries (suc fuel) m (some i) =
    cons_some (get_elem? m.entries i) (chain_entries fuel m (next_of (get_elem? m.entries i)))

unfoldable pub bucket_entries : Memory → List (Option ℕ) → List Entry
bucket_entries m [] = []
bucket_entries m (head ∷ buckets) =
    chain_entries (length m.entries) m head ++ bucket_entries m buckets

unfoldable pub entries_bytes : List Entry → List ℕ
entries_bytes [] = []
entries_bytes (e ∷ es) = entry_bytes e ++ entries_bytes es

unfoldable pub file_bytes : List ℕ → BackendIndex → Memory → List ℕ
file_bytes padding idx m = header_bytes padding idx ++ entries_bytes (bucket_entries m idx.buckets)

-- What the kernel answers: whether the new file can be opened, how many bytes it takes, and whether
-- it can be renamed.
pub record SaveAnswers : Type 0 where
  pub opened : Bool
  pub room : ℕ
  pub renamed : Bool

-- 0 or -1, the new content of the index file where it was replaced, and the index. Only the write of
-- the header is tested.
unfoldable pub backend_index_save :
    SaveAnswers → List ℕ → BackendIndex → Memory → Bool × (Option (List ℕ) × BackendIndex)
backend_index_save answers padding idx m = elim idx.index_file_path [
  | none ↦ (false, (none, idx))
  | some path ↦
      if not answers.opened
      then (false, (none, idx))
      else if ltb answers.room (length (header_bytes padding idx))
      then (false, (none, idx))
      else if not answers.renamed
      then (false, (none, idx))
      else (
        true,
        (some (take answers.room (file_bytes padding idx m)), record idx { dirty = false }),
      )
]

-- `read_all(...) != n`: all of the bytes, or none.
unfoldable pub read_exact : ℕ → List ℕ → Option (List ℕ × List ℕ)
read_exact n bytes = if leb n (length bytes) then some (take n bytes, drop n bytes) else none

-- A read that is not tested leaves the rest of the variable as it was.
unfoldable pub read_over : ℕ → List ℕ → List ℕ → List ℕ
read_over n stale bytes = take n bytes ++ drop (length (take n bytes)) (take n stale)

-- The text up to its first 0, as strdup copies it.
unfoldable pub c_string : List ℕ → List ℕ
c_string [] = []
c_string (b ∷ bs) = let rest = c_string bs in if b == 0 then [] else b ∷ rest

abbrev pub read_text : Option (List ℕ × List ℕ) → Option (List ℕ × List ℕ)
read_text none = none
read_text (some len) = read_exact (of_le len.0) len.1

unfoldable pub read_string : List ℕ → Option (List ℕ × List ℕ)
unfolding read_exact
read_string bytes = read_text (read_exact 2 bytes)

-- The entry that is created, with the numbers that follow its texts. `stale` is what stood in the
-- variables size, mtime and flags, one after another, before a round of the loop.
unfoldable pub stored_entry : List ℕ → ℕ → List ℕ → List ℕ → List ℕ → Entry
unfolding read_over
stored_entry stale backend_id uri path bytes =
    record (index_entry_create (c_string uri) backend_id (c_string path)) {
      size_bytes = of_le (read_over 8 stale bytes);
      mtime = of_le (read_over 8 (drop 8 stale) (drop 8 bytes));
      flags = of_le (read_over 4 (drop 16 stale) (drop 16 bytes));
    }

unfoldable pub read_path : List ℕ → ℕ → List ℕ → Option (List ℕ × List ℕ) → Option (Entry × List ℕ)
unfolding stored_entry
read_path stale backend_id uri none = none
read_path stale backend_id uri (some path) =
    some (stored_entry stale backend_id uri path.0 path.1, drop 20 path.1)

unfoldable pub read_uri : List ℕ → ℕ → Option (List ℕ × List ℕ) → Option (Entry × List ℕ)
unfolding read_path read_string
read_uri stale backend_id none = none
read_uri stale backend_id (some uri) = read_path stale backend_id uri.0 (read_string uri.1)

unfoldable pub read_entry : List ℕ → ℕ → List ℕ → Option (Entry × List ℕ)
unfolding read_uri read_string
read_entry stale backend_id bytes = read_uri stale backend_id (read_string bytes)

-- The loop over the entries; a short read ends it.
unfoldable pub read_entries : ℕ → List ℕ → ℕ → List ℕ → List Entry
unfolding read_entry
read_entries zero stale backend_id bytes = []
read_entries (suc n) stale backend_id bytes = elim (read_entry stale backend_id bytes) [
  | none ↦ []
  | some r ↦ r.0 ∷ read_entries n stale backend_id r.1
]

-- An entry is allocated and inserted; the insertions do not touch the file that is read.
unfoldable pub insert_all : List Entry → BackendIndex → Memory → BackendIndex × Memory
insert_all [] idx m = (idx, m)
insert_all (e ∷ es) idx m =
    let inserted =
      backend_index_insert (length m.entries) idx (record m { entries = m.entries ++ e ∷ [] }) in
    insert_all es inserted.0 inserted.1

unfoldable pub load_body :
    List ℕ → BackendIndex → Memory → List ℕ → List ℕ → Option ℕ × (BackendIndex × Memory)
unfolding insert_all
load_body stale idx m header bytes =
    if not (bytes_eq (take 6 header) index_magic)
    then (none, (idx, m))
    else if not (of_le (slice 6 2 header) == index_version)
    then (none, (idx, m))
    else (let es = read_entries (of_le (slice 16 8 header)) stale idx.backend_id bytes in
        let loaded = insert_all es idx m in
        (some (length es), (record loaded.0 { dirty = false }, loaded.1)))

unfoldable pub load_header :
    List ℕ → BackendIndex → Memory → Option (List ℕ × List ℕ) → Option ℕ × (BackendIndex × Memory)
unfolding load_body
load_header stale idx m none = (none, (idx, m))
load_header stale idx m (some header) = load_body stale idx m header.0 header.1

abbrev pub read_header : Option (List ℕ) → Option (List ℕ × List ℕ)
read_header none = none
read_header (some file) = read_exact 32 file

-- The number of entries that were loaded, or -1; `file` is none where it cannot be opened.
unfoldable pub backend_index_load :
    List ℕ → Option (List ℕ) → BackendIndex → Memory → Option ℕ × (BackendIndex × Memory)
unfolding load_header
backend_index_load stale file idx m = elim idx.index_file_path [
  | none ↦ (none, (idx, m))
  | some path ↦ load_header stale idx m (read_header file)
]
