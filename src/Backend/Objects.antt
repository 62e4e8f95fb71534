-- ===== src/Backend/Objects.antt =====
-- lib/backend/backend.c: the operations on objects. The lock of a backend is left out. The C
-- strings of paths end at their buffers: 1023 characters for the path of an object.
pub mod Scan
pub mod Found
pub mod Size
use objmapper.Base.{
  ℕ, ◌+◌, ◌-◌, ◌%◌, ◌^◌, Bool, true, false, not, ◌&&◌, ◌||◌, Option, none, some, List, [], ◌∷◌,
  ◌++◌, length, get_elem?, take, ltb, ◌==◌, bit_or, if◌then◌else◌,
}
use objmapper.Index.Entry.{
  Entry, Memory, FdRef, open_create, unlink, mkdir, close, call, update_entry, index_entry_create,
  index_entry_get, index_entry_put, index_entry_record_access, fd_ref_release,
}
use objmapper.Index.Tables.{global_index_lookup, global_index_insert, backend_index_insert}
use objmapper.Index.Removal.{less_one, global_index_remove, backend_index_remove}
use objmapper.Backend.Types.{
  flag_ephemeral_only, flag_enabled, index_flag_ephemeral, index_flag_persistent, has_flag,
  BackendInfo, Manager, CreateReq, Metadata, Opened, plus, minus,
}
use objmapper.Backend.Registry.{backend_manager_get_backend, update_backend}

-- The string without one slash at its end.
unfoldable pub strip_slash : List ℕ → List ℕ
strip_slash [] = []
strip_slash (c ∷ []) = if c == b'/' then [] else c ∷ []
strip_slash (c ∷ (d ∷ rest)) = c ∷ strip_slash (d ∷ rest)

-- A directory is made for each prefix that a slash ends, and for the whole. `made` says for which
-- paths mkdir succeeds or finds the directory there.
unfoldable pub mkdir_from : (List ℕ → Bool) → List ℕ → List ℕ → Memory → Bool × Memory
mkdir_from made prefix [] m = (made prefix, call (mkdir prefix) m)
mkdir_from made prefix (c ∷ rest) m =
    let skipped = mkdir_from made (prefix ++ c ∷ []) rest m in
    let entered = mkdir_from made (prefix ++ c ∷ []) rest (call (mkdir prefix) m) in
    if c == b'/' then (if made prefix then entered else (false, call (mkdir prefix) m)) else skipped

unfoldable pub mkdir_path : (List ℕ → Bool) → List ℕ → Memory → Bool × Memory
unfolding mkdir_from
mkdir_path made [] m = (made [], call (mkdir []) m)
mkdir_path made (c ∷ rest) m = mkdir_from made (c ∷ []) rest m

-- The walk starts at the second character. Of an empty path the source reads what stands around
-- its buffer; here that is one directory without a name.
unfoldable pub mkdir_p : (List ℕ → Bool) → List ℕ → Memory → Bool × Memory
unfolding mkdir_path strip_slash
mkdir_p made path m = mkdir_path made (strip_slash (take 1023 path)) m

unfoldable pub cons_before : ℕ → Option (List ℕ) → Option (List ℕ)
cons_before c (some dir) = some (c ∷ dir)
cons_before c none = if c == b'/' then some [] else none

-- What stands before the last slash.
unfoldable pub before_last_slash : List ℕ → Option (List ℕ)
unfolding cons_before
before_last_slash [] = none
before_last_slash (c ∷ rest) = cons_before c (before_last_slash rest)

unfoldable pub make_parents : (List ℕ → Bool) → Option (List ℕ) → Memory → Bool × Memory
unfolding mkdir_p
make_parents made none m = (true, m)
make_parents made (some dir) m = mkdir_p made dir m

unfoldable pub target_of : CreateReq → Manager → Option ℕ
target_of req mgr = elim req.backend_id [
  | some i ↦ some i
  | none ↦ if req.ephemeral then mgr.ephemeral_backend_id else mgr.default_backend_id
]

abbrev pub object_path : List ℕ → List ℕ → List ℕ
object_path mount_path uri = take 1023 (mount_path ++ uri)

abbrev pub new_entry : CreateReq → ℕ → List ℕ → Entry
new_entry req id path = record (index_entry_create req.uri id path) {
  flags = bit_or req.flags (if req.ephemeral then index_flag_ephemeral else index_flag_persistent);
}

-- The allocator gives an address that no entry has.
abbrev pub allocate : Entry → Memory → Memory
allocate entry m = record m { entries = m.entries ++ entry ∷ [] }

abbrev pub count_created : BackendInfo → BackendInfo
count_created b = record b { object_count = plus b.object_count 1; writes = plus b.writes 1 }

-- The entry is in the global index.
unfoldable pub keep_created :
    ℕ → ℕ → ℕ → BackendInfo → Manager → Memory → Option FdRef × (Manager × Memory)
keep_created i fd id backend mgr m =
    let inserted = backend_index_insert i backend.index m in
    (
      some (record { entry = some i; fd = some fd; generation = 0 }),
      (
        record (update_backend id (λ b. record (count_created b) { index = inserted.0 }) mgr) {
          total_objects = plus mgr.total_objects 1;
        },
        index_entry_get i
            (update_entry i (λ e. record e { fd = some fd; fd_refcount = 1 }) inserted.1),
      ),
    )

-- The file is open.
unfoldable pub enter_object :
    ℕ → CreateReq → ℕ → List ℕ → BackendInfo → Manager → Memory → Option FdRef × (Manager × Memory)
unfolding keep_created
enter_object fd req id path backend mgr m =
    let i = length m.entries in
    let inserted = global_index_insert i mgr.global_index (allocate (new_entry req id path) m) in
    if inserted.0
    then keep_created i fd id backend (record mgr { global_index = inserted.1.0 }) inserted.1.1
    else (
      none,
      (
        record mgr { global_index = inserted.1.0 },
        call (unlink path) (call (close fd) (index_entry_put i inserted.1.1)),
      ),
    )

unfoldable pub create_file :
    Option ℕ
    → CreateReq
    → ℕ
    → List ℕ
    → BackendInfo
    → Manager
    → Memory
    → Option FdRef × (Manager × Memory)
unfolding enter_object
create_file none req id path backend mgr m = (none, (mgr, call (open_create path) m))
create_file (some fd) req id path backend mgr m =
    enter_object fd req id path backend mgr (call (open_create path) m)

-- The backend is enabled, and an ephemeral object is only for an ephemeral backend.
abbrev pub may_create : CreateReq → BackendInfo → Bool
may_create req backend =
    has_flag backend.flags flag_enabled
    && (not req.ephemeral || has_flag backend.flags flag_ephemeral_only)

unfoldable pub create_on :
    Option BackendInfo
    → (List ℕ → Bool)
    → Option ℕ
    → CreateReq
    → ℕ
    → Manager
    → Memory
    → Option FdRef × (Manager × Memory)
unfolding make_parents before_last_slash create_file
create_on none made opened req id mgr m = (none, (mgr, m))
create_on (some backend) made opened req id mgr m =
    let path = object_path backend.mount_path req.uri in
    let parents = make_parents made (before_last_slash path) m in
    if may_create req backend
    then (if parents.0
        then create_file opened req id path backend mgr parents.1
        else (none, (mgr, parents.1)))
    else (none, (mgr, m))

unfoldable pub create_at :
    Option ℕ
    → (List ℕ → Bool)
    → Option ℕ
    → CreateReq
    → Manager
    → Memory
    → Option FdRef × (Manager × Memory)
unfolding create_on
create_at none made opened req mgr m = (none, (mgr, m))
create_at (some id) made opened req mgr m =
    create_on (backend_manager_get_backend mgr (some id)) made opened req id mgr m

-- `made` and `opened` are what mkdir and open answer.
unfoldable pub backend_create_object :
    (List ℕ → Bool) → Option ℕ → CreateReq → Manager → Memory → Option FdRef × (Manager × Memory)
unfolding create_at target_of
backend_create_object made opened req mgr m = create_at (target_of req mgr) made opened req mgr m

abbrev pub entry_of : FdRef → Memory → Option Entry
entry_of ref m = elim ref.entry [ none ↦ none | some i ↦ get_elem? m.entries i ]

-- A lookup in the manager's global index.
unfoldable pub find : Opened → List ℕ → Manager → Memory → Option FdRef × (Manager × Memory)
find answer uri mgr m =
    let looked = global_index_lookup answer.rdwr answer.rdonly answer.now uri mgr.global_index m in
    (looked.0, (record mgr { global_index = looked.1.0 }, looked.1.1))

abbrev pub count_read : Option Entry → Manager → Manager
count_read none mgr = mgr
count_read (some entry) mgr =
    update_backend entry.backend_id (λ b. record b { reads = plus b.reads 1 }) mgr

abbrev pub record_access : Option ℕ → ℕ → Memory → Memory
record_access none now m = m
record_access (some i) now m = index_entry_record_access now i m

unfoldable pub get_found : Option FdRef → ℕ → Manager → Memory → Option FdRef × (Manager × Memory)
get_found none later mgr m = (none, (mgr, m))
get_found (some ref) later mgr m =
    (some ref, (count_read (entry_of ref m) mgr, record_access ref.entry later m))

-- The access is recorded a second time, at the time `later`.
unfoldable pub backend_get_object :
    Opened → ℕ → List ℕ → Manager → Memory → Option FdRef × (Manager × Memory)
unfolding find get_found
backend_get_object answer later uri mgr m =
    let found = find answer uri mgr m in get_found found.0 later found.1.0 found.1.1

-- What an object on a backend was counted for.
abbrev pub uncount : ℕ → BackendInfo → BackendInfo
uncount size b = record b {
  object_count = less_one b.object_count;
  used_bytes = minus b.used_bytes size;
}

unfoldable pub delete_from :
    Option BackendInfo → FdRef → Entry → List ℕ → Manager → Memory → Bool × (Manager × Memory)
delete_from none ref entry uri mgr m = (false, (mgr, (fd_ref_release ref m).1))
delete_from (some backend) ref entry uri mgr m =
    let from_backend =
      backend_index_remove uri backend.index (call (unlink entry.backend_path) m) in
    let from_global = global_index_remove uri mgr.global_index from_backend.1.1 in
    (
      true,
      (
        record (update_backend entry.backend_id
            (λ b. record (uncount entry.size_bytes b) { index = from_backend.1.0 }) mgr) {
              global_index = from_global.1.0;
              total_objects = less_one mgr.total_objects;
              total_bytes = minus mgr.total_bytes entry.size_bytes;
            },
        (fd_ref_release ref from_global.1.1).1,
      ),
    )

unfoldable pub delete_entry :
    Option Entry → FdRef → List ℕ → Manager → Memory → Bool × (Manager × Memory)
unfolding delete_from
delete_entry none ref uri mgr m = (false, (mgr, m))
delete_entry (some entry) ref uri mgr m =
    delete_from (backend_manager_get_backend mgr (some entry.backend_id)) ref entry uri mgr m

unfoldable pub delete_found : Option FdRef → List ℕ → Manager → Memory → Bool × (Manager × Memory)
unfolding delete_entry
delete_found none uri mgr m = (false, (mgr, m))
delete_found (some ref) uri mgr m = delete_entry (entry_of ref m) ref uri mgr m

unfoldable pub backend_delete_object :
    Opened → List ℕ → Manager → Memory → Bool × (Manager × Memory)
unfolding find delete_found
backend_delete_object answer uri mgr m =
    let found = find answer uri mgr m in delete_found found.0 uri found.1.0 found.1.1

abbrev pub metadata_of : Option Entry → Option Metadata
metadata_of none = none
metadata_of (some e) = some (record {
  uri = e.uri;
  backend_id = e.backend_id;
  fs_path = e.backend_path;
  size_bytes = e.size_bytes;
  mtime = e.mtime;
  flags = e.flags;
  access_count = e.access_count;
})

unfoldable pub read_metadata :
    Option FdRef → Manager → Memory → Option Metadata × (Manager × Memory)
read_metadata none mgr m = (none, (mgr, m))
read_metadata (some ref) mgr m = (metadata_of (entry_of ref m), (mgr, (fd_ref_release ref m).1))

unfoldable pub backend_get_metadata :
    Opened → List ℕ → Manager → Memory → Option Metadata × (Manager × Memory)
unfolding find read_metadata
backend_get_metadata answer uri mgr m =
    let found = find answer uri mgr m in read_metadata found.0 found.1.0 found.1.1

-- The bytes in use, when an object grows or shrinks from `old` to `new`.
unfoldable pub resized : ℕ → ℕ → ℕ → ℕ
resized old new used =
    if ltb old new
    then plus used (new - old)
    else (if ltb new old then minus used (old - new) else used)

unfoldable pub resize_on :
    Option BackendInfo → FdRef → ℕ → Entry → ℕ → Manager → Memory → Bool × (Manager × Memory)
unfolding resized
resize_on none ref i entry new_size mgr m = (false, (mgr, (fd_ref_release ref m).1))
resize_on (some backend) ref i entry new_size mgr m = (
  true,
  (
    record (update_backend entry.backend_id
        (λ b. record b { used_bytes = resized entry.size_bytes new_size b.used_bytes }) mgr) {
          total_bytes = resized entry.size_bytes new_size mgr.total_bytes;
        },
    (fd_ref_release ref (update_entry i (λ e. record e { size_bytes = new_size }) m)).1,
  ),
)

unfoldable pub resize_entry :
    Option Entry → FdRef → ℕ → ℕ → Manager → Memory → Bool × (Manager × Memory)
unfolding resize_on
resize_entry none ref i new_size mgr m = (false, (mgr, m))
resize_entry (some entry) ref i new_size mgr m =
    resize_on (backend_manager_get_backend mgr (some entry.backend_id)) ref i entry new_size mgr m

unfoldable pub resize_at : Option ℕ → FdRef → ℕ → Manager → Memory → Bool × (Manager × Memory)
unfolding resize_entry
resize_at none ref new_size mgr m = (false, (mgr, m))
resize_at (some i) ref new_size mgr m = resize_entry (get_elem? m.entries i) ref i new_size mgr m

unfoldable pub resize_found : Option FdRef → ℕ → Manager → Memory → Bool × (Manager × Memory)
unfolding resize_at
resize_found none new_size mgr m = (false, (mgr, m))
resize_found (some ref) new_size mgr m = resize_at ref.entry ref new_size mgr m

unfoldable pub backend_update_size :
    Opened → List ℕ → ℕ → Manager → Memory → Bool × (Manager × Memory)
unfolding find resize_found
backend_update_size answer uri new_size mgr m =
    let found = find answer uri mgr m in resize_found found.0 new_size found.1.0 found.1.1
