-- ===== src/Tests/Index.antt =====
-- The theorems on lib/index at concrete inputs.
use objmapper.Base.{
  ℕ, ◌<◌, ◌≤◌, ◌≡◌, ◌≢◌, true, false, bytes_eq, none, some, List, [], ◌∷◌, refl, arith, length, ap,
  get_elem?, zero, suc, leb→le, if◌then◌else◌,
}
use objmapper.Base.Little.{le}
use objmapper.Index.Entry.{
  Entry, Memory, FdRef, index_entry_create, index_hash_string, fd_ref_release,
}
use objmapper.Index.Tables.{
  GlobalIndex, BackendIndex, found, missing, search, walk, walk_entry, matches, head_of, bucket_of,
  global_index_lookup, global_index_insert, backend_index_insert,
}
use objmapper.Index.Tables.References.{IsBalanced, fd_ref_release-global_index_lookup}
use objmapper.Index.Tables.Chains.{backend_index_insert-global_index_insert}
use objmapper.Index.Removal.{global_index_remove, backend_index_remove}
use objmapper.Index.Links.{Chain}
use objmapper.Index.Links.First.{IsFirst, search-IsFirst}
use objmapper.Index.Links.Insert.{search-global_index_insert}
use objmapper.Index.Links.Laws.{
  IsWithout, search-global_index_remove, search-backend_index_remove, global_index_remove-missing,
}
use objmapper.Index.Persist.{
  SaveAnswers, backend_index_save, backend_index_load, bucket_entries, chain_entries, file_bytes,
  header_bytes, entries_bytes, entry_bytes, string_bytes, c_string,
}
use objmapper.Index.Persist.RoundTrip.{IsStored}
use objmapper.Index.Persist.RoundTrip.Loading.{Chained}
use objmapper.Index.Persist.RoundTrip.Growth.{IsGrown, Placed}
use objmapper.Index.Persist.RoundTrip.Whole.{Listed, backend_index_load-backend_index_save}

abbrev old_uri : List ℕ
old_uri = b'a' ∷ []

abbrev new_uri : List ℕ
new_uri = b'b' ∷ b'b' ∷ []

-- Two objects of the backend 1.
abbrev memory : Memory
memory = record {
  entries =
      index_entry_create old_uri 1 (b'/' ∷ b'a' ∷ [])
      ∷ index_entry_create new_uri 1 (b'/' ∷ b'b' ∷ [])
      ∷ [];
  calls = [];
}

-- The first of them is in the index.
abbrev index : GlobalIndex
index = record {
  buckets = some 0 ∷ [];
  num_buckets = 1;
  num_entries = 1;
  max_open_fds = 8;
  num_open_fds = 0;
  stat_lookups = 0;
  stat_hits = 0;
  stat_misses = 0;
}

abbrev backend : BackendIndex
backend = record {
  backend_id = 1;
  buckets = none ∷ [];
  num_buckets = 1;
  num_entries = 0;
  index_file_path = none;
  dirty = false;
  stat_lookups = 0;
  stat_hits = 0;
}

found_old :
    search memory index.buckets index.num_buckets (index_hash_string old_uri) old_uri ≡ found 0
unfolding search walk walk_entry matches head_of bucket_of index_entry_create index_hash_string
    bytes_eq
found_old = refl

fd_ref_release-global_index_lookup_example :
    (ref : FdRef) × (((global_index_lookup none (some 5) 77 old_uri index memory).0 ≡ some ref)
      × ((after : Entry) × ((get_elem?
                (fd_ref_release ref
                  (global_index_lookup none (some 5) 77 old_uri index memory).1.1).1.entries
                0
              ≡ some after)
            × IsBalanced (index_entry_create old_uri 1 (b'/' ∷ b'a' ∷ [])) after)))
unfolding index_entry_create
fd_ref_release-global_index_lookup_example =
    fd_ref_release-global_index_lookup none (some 5) 77 old_uri index memory 0
      (index_entry_create old_uri 1 (b'/' ∷ b'a' ∷ [])) found_old refl (omega arith) (omega arith)
      (omega arith)

new_missing :
    search memory index.buckets index.num_buckets (index_hash_string new_uri) new_uri ≡ missing
unfolding search walk walk_entry matches head_of bucket_of index_entry_create index_hash_string
    bytes_eq
new_missing = refl

differ : new_uri ≢ old_uri
differ e = let lengths = ap length e in omega (arith, lengths)

backend_index_insert-global_index_insert_example :
    (search memory index.buckets index.num_buckets (index_hash_string old_uri) old_uri ≡ found 0)
    × (search
          (backend_index_insert 1 backend (global_index_insert 1 index memory).1.1).1
          (global_index_insert 1 index memory).1.0.buckets
          (global_index_insert 1 index memory).1.0.num_buckets
          (index_hash_string old_uri)
          old_uri
        ≡ missing)
unfolding index_entry_create head_of bucket_of index_hash_string
backend_index_insert-global_index_insert_example =
    backend_index_insert-global_index_insert 1 0 index backend memory
      (index_entry_create new_uri 1 (b'/' ∷ b'b' ∷ []))
      (index_entry_create old_uri 1 (b'/' ∷ b'a' ∷ [])) refl refl refl refl new_missing differ refl

old-Chain :
    Chain memory
      (head_of index.buckets (bucket_of (index_hash_string old_uri) index.num_buckets))
      (0 ∷ [])
unfolding head_of bucket_of index_hash_string index_entry_create
old-Chain = (refl, (index_entry_create old_uri 1 (b'/' ∷ b'a' ∷ []), (refl, (tt, refl))))

search-IsFirst_example :
    IsFirst memory
      (index_hash_string old_uri)
      old_uri
      (0 ∷ [])
      (search memory index.buckets index.num_buckets (index_hash_string old_uri) old_uri)
search-IsFirst_example =
    search-IsFirst memory index.buckets index.num_buckets (index_hash_string old_uri) old_uri
      (0 ∷ []) old-Chain

in_range : bucket_of (index_hash_string new_uri) 1 < 1
unfolding bucket_of index_hash_string
in_range = omega arith

one_not_zero : ◌≢◌ {A = ℕ} 1 0
one_not_zero e = omega (arith, e)

search-global_index_insert_example :
    ((global_index_insert 1 index memory).0 ≡ true)
    × (search
          (global_index_insert 1 index memory).1.1
          (global_index_insert 1 index memory).1.0.buckets
          (global_index_insert 1 index memory).1.0.num_buckets
          (index_hash_string old_uri)
          old_uri
        ≡ (if matches
              (index_entry_create new_uri 1 (b'/' ∷ b'b' ∷ []))
              (index_hash_string old_uri)
              old_uri
            then found 1
            else search memory index.buckets index.num_buckets (index_hash_string old_uri) old_uri))
unfolding index_entry_create
search-global_index_insert_example =
    search-global_index_insert 1 (index_entry_create new_uri 1 (b'/' ∷ b'b' ∷ [])) index memory
      (index_hash_string old_uri) old_uri (0 ∷ []) refl in_range new_missing old-Chain
      (one_not_zero, tt)

search-global_index_remove_example :
    ((global_index_remove old_uri index memory).0 ≡ true)
    × IsWithout 0
        (0 ∷ [])
        (bucket_of (index_hash_string old_uri) 1)
        1
        memory
        (global_index_remove old_uri index memory).1.0.buckets
        (global_index_remove old_uri index memory).1.1
search-global_index_remove_example =
    search-global_index_remove old_uri index memory (0 ∷ []) 0 old-Chain found_old

new-Chain :
    Chain memory
      (head_of index.buckets (bucket_of (index_hash_string new_uri) index.num_buckets))
      (0 ∷ [])
unfolding head_of bucket_of index_hash_string index_entry_create
new-Chain = (refl, (index_entry_create old_uri 1 (b'/' ∷ b'a' ∷ []), (refl, (tt, refl))))

global_index_remove-missing_example :
    global_index_remove new_uri index memory ≡ (false, (index, memory))
global_index_remove-missing_example =
    global_index_remove-missing new_uri index memory (0 ∷ []) new-Chain new_missing

-- The index of the backend with its first object.
abbrev stored : BackendIndex
stored = record backend {
  buckets = some 0 ∷ [];
  num_entries = 1;
  index_file_path = some (b'/' ∷ b'i' ∷ []);
}

search-backend_index_remove_example :
    ((backend_index_remove old_uri stored memory).0 ≡ true)
    × IsWithout 0
        (0 ∷ [])
        (bucket_of (index_hash_string old_uri) 1)
        1
        memory
        (backend_index_remove old_uri stored memory).1.0.buckets
        (backend_index_remove old_uri stored memory).1.1
search-backend_index_remove_example =
    search-backend_index_remove old_uri stored memory (0 ∷ []) 0 old-Chain found_old

abbrev saving : SaveAnswers
saving = record { opened = true; room = 4096; renamed = true }

abbrev four : List ℕ
four = 0 ∷ 0 ∷ 0 ∷ 0 ∷ []

abbrev old_entry : Entry
old_entry = record (index_entry_create old_uri 1 (b'/' ∷ b'a' ∷ [])) {
  size_bytes = 7;
  next = some 1;
}

abbrev new_entry : Entry
new_entry = index_entry_create new_uri 1 (b'/' ∷ b'b' ∷ [])

-- Two objects in one chain.
abbrev pair : Memory
pair = record { entries = old_entry ∷ new_entry ∷ []; calls = [] }

abbrev saved : BackendIndex
saved = record stored { num_entries = 2 }

-- An index of another backend that is empty.
abbrev empty : BackendIndex
empty = record backend { backend_id = 2; index_file_path = some (b'/' ∷ b'j' ∷ []) }

fits : length (file_bytes four saved pair) ≤ 4096
unfolding file_bytes header_bytes bucket_entries chain_entries entries_bytes entry_bytes
    string_bytes index_entry_create le
fits = leb→le (length (file_bytes four saved pair)) 4096 refl

IsStored-old : IsStored old_entry
unfolding index_entry_create c_string
IsStored-old = record {
  uri_fits = omega arith;
  path_fits = omega arith;
  uri_text = refl;
  path_text = refl;
  size_fits = omega arith;
  mtime_fits = omega arith;
  flags_fit = omega arith;
}

IsStored-new : IsStored new_entry
unfolding index_entry_create c_string
IsStored-new = record {
  uri_fits = omega arith;
  path_fits = omega arith;
  uri_text = refl;
  path_text = refl;
  size_fits = omega arith;
  mtime_fits = omega arith;
  flags_fit = omega arith;
}

pair-Listed : Listed pair saved.buckets (old_entry ∷ new_entry ∷ [])
unfolding index_entry_create
pair-Listed = (
  0 ∷ 1 ∷ [],
  (
    old_entry ∷ new_entry ∷ [],
    (
      [],
      (
        (
          refl,
          (
            old_entry,
            (refl, (((λ e. omega (arith, e)), tt), (refl, (new_entry, (refl, (tt, refl)))))),
          ),
        ),
        ((refl, (refl, tt)), (refl, refl)),
      ),
    ),
  ),
)

both-Placed : Placed empty (old_entry ∷ new_entry ∷ [])
unfolding index_entry_create bucket_of index_hash_string
both-Placed = (omega arith, (omega arith, tt))

empty-Chained : Chained memory empty.buckets
unfolding head_of
empty-Chained zero = ([], refl)
empty-Chained (suc b) = ([], refl)

backend_index_load-backend_index_save_example :
    ((backend_index_save saving four saved pair).0 ≡ true)
    × (((backend_index_load [] (backend_index_save saving four saved pair).1.0 empty memory).0
          ≡ some 2)
        × IsGrown
            (old_entry ∷ new_entry ∷ [])
            2
            empty
            memory
            (backend_index_load [] (backend_index_save saving four saved pair).1.0 empty memory).1.0
            (backend_index_load []
              (backend_index_save saving four saved pair).1.0
              empty
              memory).1.1)
backend_index_load-backend_index_save_example =
    backend_index_load-backend_index_save saving [] four (b'/' ∷ b'i' ∷ []) (b'/' ∷ b'j' ∷ []) saved
      empty pair memory (old_entry ∷ new_entry ∷ []) refl refl refl refl fits
      (record { padded = refl; id_fits = omega arith; entries_fit = omega arith }) pair-Listed refl
      (IsStored-old, (IsStored-new, tt)) both-Placed empty-Chained
