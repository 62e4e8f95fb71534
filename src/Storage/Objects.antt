-- ===== src/Storage/Objects.antt =====
-- lib/storage/storage.c: the operations of the component. The arguments that may be NULL are given,
-- and the lock is held throughout each operation, so operations follow one another.
pub mod Keeps
pub mod Writes
pub mod Consistent
pub mod Free
pub mod Claim
pub mod Remove
pub mod Put
pub mod Dictionary
pub mod Runs
use objmapper.Base.{
  ℕ, zero, suc, ◌+◌, ◌-◌, ◌%◌, ◌^◌, Bool, true, false, Option, none, some, List, [], ◌∷◌, ◌++◌,
  get_elem?, set, take, replicate, ltb, leb, ◌==◌, not, ◌&&◌, if◌then◌else◌,
}
use objmapper.Storage.Types.{
  Config, Info, Slot, Call, mkdir, open_write, open_read, write, close, dup, mmap, munmap, unlink,
  Answers, Storage, Errno, einval, enoent, enomem, of_system, unset, Result, done, failed,
  cleared_slot,
}
use objmapper.Storage.Table.{find_slot, add_hash_entry}

abbrev pub call : Call → Storage → Storage
call made s = record s { calls = made ∷ s.calls }

abbrev pub update_slot : ℕ → (Slot → Slot) → Storage → Storage
update_slot i change s = record s {
  objects = elim (get_elem? s.objects i) [
    | none ↦ s.objects
    | some slot ↦ set s.objects i (change slot)
  ];
}

abbrev pub slot_at : Storage → ℕ → Slot
slot_at s i = elim (get_elem? s.objects i) [ none ↦ cleared_slot | some slot ↦ slot ]

-- strncpy into a cleared array of n + 1 bytes, or snprintf into it.
abbrev cut : ℕ → List ℕ → List ℕ
cut n text = take n text

abbrev dir_of : Option (List ℕ) → List ℕ
dir_of none = []
dir_of (some dir) = cut 255 dir

abbrev pub default_capacity : ℕ
default_capacity = 10000

abbrev made_dirs : List ℕ → List ℕ → List Call
made_dirs backing [] = mkdir backing ∷ []
made_dirs backing (c ∷ cs) = mkdir (c ∷ cs) ∷ mkdir backing ∷ []

-- storage_init, after the test of its arguments.
unfoldable pub opened_storage : List ℕ → Config → Storage
opened_storage dir config =
    let size = if ltb 0 config.hash_size then config.hash_size else 16384 in
    record {
      backing_dir = cut 255 dir;
      cache_dir = dir_of config.cache_dir;
      cache_limit = config.cache_limit;
      cached_bytes = 0;
      objects = replicate default_capacity cleared_slot;
      capacity = default_capacity;
      count = 0;
      hash_table = replicate size [];
      hash_size = size;
      calls = made_dirs (cut 255 dir) (dir_of config.cache_dir);
    }

unfoldable pub storage_init : Config → Result Storage
unfolding opened_storage
storage_init config = elim config.backing_dir [
  | none ↦ failed einval
  | some dir ↦ done (opened_storage dir config)
]

-- The first slot that is not in use.
unfoldable pub free_index : List Slot → Option ℕ
free_index [] = none
free_index (slot ∷ slots) =
    let rest = free_index slots in
    if slot.in_use then elim rest [ none ↦ none | some i ↦ some (suc i) ] else some 0

-- A free slot is taken for a URI.
unfoldable pub claim_slot : ℕ → List ℕ → Storage → Storage
claim_slot i uri s =
    let claimed =
      update_slot i (λ slot. record slot { in_use = true; uri = cut 1023 uri })
        (record s { count = s.count + 1 }) in
    add_hash_entry claimed uri i

-- What write returned is the size, or not.
unfoldable pub end_write : Option ℕ → ℕ → ℕ → Storage → Result (Unit {0}) × Storage
end_write none i size s = (failed of_system, s)
end_write (some written) i size s =
    if written == size
    then (done tt, update_slot i (λ slot. record slot { size = size; backing_fd = none }) s)
    else (failed of_system, s)

-- What open returned is the descriptor to which the object is written.
unfoldable pub begin_write :
    Option ℕ → Option ℕ → ℕ → List ℕ → ℕ → Storage → Result (Unit {0}) × Storage
unfolding end_write
begin_write none written i data_bytes size s = (failed of_system, s)
begin_write (some fd) written i data_bytes size s =
    end_write written i size (call (close fd) (call (write data_bytes size) s))

-- The object goes to its backing file.
unfoldable pub write_object :
    Answers → ℕ → List ℕ → List ℕ → ℕ → Storage → Result (Unit {0}) × Storage
unfolding begin_write
write_object answers i uri data_bytes size s =
    let path = cut 1023 (s.backing_dir ++ b'/' ∷ uri) in
    let named = update_slot i (λ slot. record slot { backing_path = path }) s in
    begin_write answers.opened answers.written i data_bytes size (call (open_write path) named)

-- The free slot that the scan found, if any.
unfoldable pub put_in_free :
    Option ℕ → Answers → List ℕ → List ℕ → ℕ → Storage → Result (Unit {0}) × Storage
unfolding write_object claim_slot
put_in_free none answers uri data_bytes size s = (failed unset, s)
put_in_free (some i) answers uri data_bytes size s =
    write_object answers i uri data_bytes size (claim_slot i uri s)

-- The slot that find_slot found, or else a free one.
unfoldable pub put_at :
    Option ℕ → Answers → List ℕ → List ℕ → ℕ → Storage → Result (Unit {0}) × Storage
unfolding write_object put_in_free
put_at (some i) answers uri data_bytes size s = write_object answers i uri data_bytes size s
put_at none answers uri data_bytes size s =
    if leb s.capacity s.count
    then (failed enomem, s)
    else put_in_free (free_index s.objects) answers uri data_bytes size s

unfoldable pub storage_put : Answers → List ℕ → List ℕ → ℕ → Storage → Result (Unit {0}) × Storage
unfolding put_at
storage_put answers uri data_bytes size s = put_at (find_slot s uri) answers uri data_bytes size s

abbrev info_of : Slot → Info
info_of slot = record {
  uri = slot.uri;
  size = slot.size;
  hits = slot.hits;
  is_cached = elim slot.cache_mmap [ none ↦ false | some p ↦ true ];
}

abbrev pub hit_slot : ℕ → Storage → Storage
hit_slot i s = update_slot i (λ slot. record slot { hits = (slot.hits + 1) % 2 ^ 64 }) s

-- The end of storage_get_fd, with the backing file open: the descriptor is a copy, or -1.
unfoldable pub serve_fd : Answers → ℕ → ℕ → Storage → Result (Option ℕ × Info) × Storage
serve_fd answers i fd s =
    let hit = hit_slot i s in (done (answers.duplicate, info_of (slot_at hit i)), call (dup fd) hit)

-- What open returned is kept in the slot, -1 included.
unfoldable pub serve_opened : Option ℕ → Answers → ℕ → Storage → Result (Option ℕ × Info) × Storage
unfolding serve_fd
serve_opened none answers i s =
    (failed of_system, update_slot i (λ slot. record slot { backing_fd = none }) s)
serve_opened (some fd) answers i s =
    serve_fd answers i fd (update_slot i (λ slot. record slot { backing_fd = some fd }) s)

-- The backing file is opened unless it is open already.
unfoldable pub serve_slot : Option ℕ → Answers → ℕ → Storage → Result (Option ℕ × Info) × Storage
unfolding serve_fd serve_opened
serve_slot (some fd) answers i s = serve_fd answers i fd s
serve_slot none answers i s =
    serve_opened answers.opened answers i (call (open_read (slot_at s i).backing_path) s)

unfoldable pub storage_get_fd : Answers → List ℕ → Storage → Result (Option ℕ × Info) × Storage
unfolding serve_slot
storage_get_fd answers uri s = elim (find_slot s uri) [
  | none ↦ (failed enoent, s)
  | some i ↦ serve_slot (slot_at s i).backing_fd answers i s
]

-- `!slot->cache_mmap && storage->cache_dir[0] && cached_bytes + size <= cache_limit`
unfoldable pub may_cache : Slot → Storage → Bool
may_cache slot s =
    elim slot.cache_mmap [ none ↦ true | some p ↦ false ]
    && elim s.cache_dir [ [] ↦ false | c ∷ cs ↦ true ]
    && leb ((s.cached_bytes + slot.size) % 2 ^ 64) s.cache_limit

-- What mmap returned; a mapping counts for the cache.
unfoldable pub keep_mapping : Option ℕ → ℕ → Storage → Storage
keep_mapping none i s = s
keep_mapping (some p) i s =
    update_slot i (λ x. record x { cache_mmap = some p })
      (record s { cached_bytes = (s.cached_bytes + (slot_at s i).size) % 2 ^ 64 })

-- The file is mapped, and the descriptor closed again.
unfoldable pub map_opened : Option ℕ → Option ℕ → ℕ → Storage → Storage
unfolding keep_mapping
map_opened none mapped i s = s
map_opened (some fd) mapped i s = call (close fd) (keep_mapping mapped i (call (mmap fd) s))

unfoldable pub map_object : Answers → ℕ → Storage → Storage
unfolding map_opened
map_object answers i s =
    map_opened answers.opened answers.mapped i (call (open_read (slot_at s i).backing_path) s)

-- The size, and the mapping or NULL.
unfoldable pub storage_get_mmap : Answers → List ℕ → Storage → Result (ℕ × Option ℕ) × Storage
unfolding map_object may_cache
storage_get_mmap answers uri s = elim (find_slot s uri) [
  | none ↦ (failed enoent, s)
  | some i ↦
      let cached = if may_cache (slot_at s i) s then map_object answers i s else s in
      let hit = hit_slot i cached in (done ((slot_at hit i).size, (slot_at hit i).cache_mmap), hit)
]

unfoldable pub storage_get_info : List ℕ → Storage → Result Info
storage_get_info uri s = elim (find_slot s uri) [
  | none ↦ failed enoent
  | some i ↦ done (info_of (slot_at s i))
]

-- The descriptor and the mapping of a slot are given up.
abbrev pub close_fd : Option ℕ → Storage → Storage
close_fd none s = s
close_fd (some fd) s = call (close fd) s

abbrev pub unmap_slot : Option ℕ → ℕ → Storage → Storage
unmap_slot none size s = s
unmap_slot (some p) size s =
    call (munmap p size)
      (record s { cached_bytes = (s.cached_bytes + (2 ^ 64 - size % 2 ^ 64)) % 2 ^ 64 })

abbrev pub unlink_cache : List ℕ → Storage → Storage
unlink_cache [] s = s
unlink_cache (c ∷ cs) s = call (unlink (c ∷ cs)) s

-- A size_t less 1.
abbrev pub decrement : ℕ → ℕ
decrement n = if n == 0 then 2 ^ 64 - 1 else n - 1

-- The descriptor, the mapping and the files of a slot are given up.
unfoldable pub release_slot : Slot → Storage → Storage
release_slot slot s = unlink_cache slot.cache_path (
    call (unlink slot.backing_path)
      (unmap_slot slot.cache_mmap slot.size (close_fd slot.backing_fd s)))

-- The entries of the hash table stay, and so do the fields of the slot other than in_use.
unfoldable pub drop_slot : ℕ → Storage → Storage
drop_slot i s =
    update_slot i (λ x. record x { in_use = false }) (record s { count = decrement s.count })

unfoldable pub storage_remove : List ℕ → Storage → Result (Unit {0}) × Storage
unfolding release_slot drop_slot
storage_remove uri s = elim (find_slot s uri) [
  | none ↦ (failed enoent, s)
  | some i ↦ (done tt, drop_slot i (release_slot (slot_at s i) s))
]

total_hits : ℕ → List Slot → ℕ
total_hits hits [] = hits
total_hits hits (slot ∷ slots) =
    total_hits (if slot.in_use then (hits + slot.hits) % 2 ^ 64 else hits) slots

-- The number of objects, the bytes in the cache, and the hits of the objects in use.
unfoldable pub storage_get_stats : Storage → ℕ × (ℕ × ℕ)
unfolding total_hits
storage_get_stats s = (s.count, (s.cached_bytes, total_hits 0 s.objects))

abbrev unmap_call : Option ℕ → ℕ → List Call
unmap_call none size = []
unmap_call (some p) size = munmap p size ∷ []

abbrev close_call : Option ℕ → List Call
close_call none = []
close_call (some fd) = close fd ∷ []

-- The calls of storage_cleanup, in their order.
unfoldable pub cleanup_calls : List Slot → List Call
cleanup_calls [] = []
cleanup_calls (slot ∷ slots) =
    let rest = cleanup_calls slots in
    if slot.in_use
    then close_call slot.backing_fd ++ unmap_call slot.cache_mmap slot.size ++ rest
    else rest

unfoldable pub storage_cleanup : Storage → List Call
unfolding cleanup_calls
storage_cleanup s = cleanup_calls s.objects
