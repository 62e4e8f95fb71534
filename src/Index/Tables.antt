-- ===== src/Index/Tables.antt =====
-- lib/index/index.c: the global index and the index of a backend, over one memory of entries.
pub mod References
pub mod Chains
use objmapper.Base.{
  ℕ, zero, suc, ◌+◌, ◌-◌, ◌%◌, ◌^◌, Bool, true, false, ◌&&◌, Option, none, some, List, [], ◌∷◌,
  length, get_elem?, set, replicate, ◌==◌, bit_and, bytes_eq, if◌then◌else◌,
}
use objmapper.Index.Entry.{
  Entry, Memory, FdRef, open_rdwr, open_rdonly, call, close_if, increment, update_entry,
  index_hash_string, index_next_power_of_2, index_entry_get, index_entry_put,
  index_entry_record_access,
}

-- struct global_index, without the list of descriptors to evict, which nothing uses.
pub record GlobalIndex : Type 0 where
  pub buckets : List (Option ℕ)
  pub num_buckets : ℕ
  pub num_entries : ℕ
  pub max_open_fds : ℕ
  pub num_open_fds : ℕ
  pub stat_lookups : ℕ
  pub stat_hits : ℕ
  pub stat_misses : ℕ

-- struct backend_index.
pub record BackendIndex : Type 0 where
  pub backend_id : ℕ
  pub buckets : List (Option ℕ)
  pub num_buckets : ℕ
  pub num_entries : ℕ
  pub index_file_path : Option (List ℕ)
  pub dirty : Bool
  pub stat_lookups : ℕ
  pub stat_hits : ℕ

unfoldable pub global_index_create : ℕ → ℕ → GlobalIndex
global_index_create num_buckets max_open_fds =
    let size = index_next_power_of_2 num_buckets in
    record {
      buckets = replicate size none;
      num_buckets = size;
      num_entries = 0;
      max_open_fds = max_open_fds;
      num_open_fds = 0;
      stat_lookups = 0;
      stat_hits = 0;
      stat_misses = 0;
    }

unfoldable pub backend_index_create : ℕ → Option (List ℕ) → ℕ → BackendIndex
backend_index_create backend_id index_file_path num_buckets =
    let size = index_next_power_of_2 num_buckets in
    record {
      backend_id = backend_id;
      buckets = replicate size none;
      num_buckets = size;
      num_entries = 0;
      index_file_path = index_file_path;
      dirty = false;
      stat_lookups = 0;
      stat_hits = 0;
    }

-- `hash & (num_buckets - 1)`
unfoldable pub bucket_of : ℕ → ℕ → ℕ
bucket_of hash num_buckets = bit_and hash ((num_buckets + (2 ^ 64 - 1)) % 2 ^ 64)

abbrev pub head_in : Option (Option ℕ) → Option ℕ
head_in none = none
head_in (some head) = head

unfoldable pub head_of : List (Option ℕ) → ℕ → Option ℕ
head_of buckets b = head_in (get_elem? buckets b)

-- The end of a walk along a chain; `stuck` is no C value: the chain does not end within the fuel.
pub data Walk : Type 0 where
  found : ℕ → Walk
  missing : Walk
  stuck : Walk

-- `entry->uri_hash == hash && strcmp(entry->uri, uri) == 0`
unfoldable pub matches : Entry → ℕ → List ℕ → Bool
matches entry hash uri = (entry.uri_hash == hash) && bytes_eq entry.uri uri

abbrev pub next_of : Option Entry → Option ℕ
next_of none = none
next_of (some entry) = entry.next

unfoldable pub walk_entry : Option Entry → ℕ → ℕ → List ℕ → Walk → Walk
walk_entry none i hash uri rest = stuck
walk_entry (some entry) i hash uri rest = if matches entry hash uri then found i else rest

-- The walk that lookups, insertions and removals share, on fuel.
unfoldable pub walk : ℕ → Memory → ℕ → List ℕ → Option ℕ → Walk
unfolding walk_entry
walk fuel m hash uri none = missing
walk zero m hash uri (some i) = stuck
walk (suc fuel) m hash uri (some i) =
    let rest = walk fuel m hash uri (next_of (get_elem? m.entries i)) in
    walk_entry (get_elem? m.entries i) i hash uri rest

-- A chain without a cycle has no more entries than the memory.
unfoldable pub search : Memory → List (Option ℕ) → ℕ → ℕ → List ℕ → Walk
search m buckets num_buckets hash uri =
    walk (length m.entries) m hash uri (head_of buckets (bucket_of hash num_buckets))

-- The two attempts to open the file of an entry.
unfoldable pub open_object : Option ℕ → Option ℕ → List ℕ → Memory → Option ℕ × Memory
open_object (some fd) rdonly path m = (some fd, call (open_rdwr path) m)
open_object none rdonly path m = (rdonly, call (open_rdonly path) (call (open_rdwr path) m))

abbrev pub count_fd : Option ℕ → ℕ → Memory → Memory
count_fd none i m = m
count_fd (some fd) i m = update_entry i (λ e. record e { fd_refcount = increment e.fd_refcount }) m

abbrev pub path_of : Option Entry → List ℕ
path_of none = []
path_of (some entry) = entry.backend_path

-- An entry was found: it gets a reference, and its file is opened.
unfoldable pub refer : Option ℕ → Option ℕ → ℕ → ℕ → Memory → FdRef × Memory
refer rdwr rdonly now i m =
    let held = index_entry_get i m in
    let opened = open_object rdwr rdonly (path_of (get_elem? held.entries i)) held in
    (
      record { entry = some i; fd = opened.0; generation = 0 },
      count_fd opened.0 i (index_entry_record_access now i opened.1),
    )

unfoldable pub look_up :
    Walk → Option ℕ → Option ℕ → ℕ → GlobalIndex → Memory → Option FdRef × (GlobalIndex × Memory)
unfolding refer
look_up (found i) rdwr rdonly now idx m =
    let referred = refer rdwr rdonly now i m in
    (some referred.0, (record idx { stat_hits = (idx.stat_hits + 1) % 2 ^ 64 }, referred.1))
look_up missing rdwr rdonly now idx m =
    (none, (record idx { stat_misses = (idx.stat_misses + 1) % 2 ^ 64 }, m))
look_up stuck rdwr rdonly now idx m = (none, (idx, m))

-- `rdwr` and `rdonly` are what the two calls of open return.
unfoldable pub global_index_lookup :
    Option ℕ → Option ℕ → ℕ → List ℕ → GlobalIndex → Memory → Option FdRef × (GlobalIndex × Memory)
unfolding look_up
global_index_lookup rdwr rdonly now uri idx m =
    look_up (search m idx.buckets idx.num_buckets (index_hash_string uri) uri) rdwr rdonly now
      (record idx { stat_lookups = (idx.stat_lookups + 1) % 2 ^ 64 }) m

-- The entry goes to the head of a chain.
unfoldable pub link : ℕ → ℕ → List (Option ℕ) → Memory → List (Option ℕ) × Memory
link b i buckets m =
    (set buckets b (some i), update_entry i (λ e. record e { next = head_of buckets b }) m)

-- The search for a duplicate ends, and the entry is inserted or not.
unfoldable pub insert_unless : Walk → ℕ → ℕ → GlobalIndex → Memory → Bool × (GlobalIndex × Memory)
insert_unless (found j) b i idx m = (false, (idx, m))
insert_unless stuck b i idx m = (false, (idx, m))
insert_unless missing b i idx m =
    let linked = link b i idx.buckets m in
    (
      true,
      (record idx { buckets = linked.0; num_entries = (idx.num_entries + 1) % 2 ^ 64 }, linked.1),
    )

unfoldable pub insert_entry :
    Option Entry → ℕ → GlobalIndex → Memory → Bool × (GlobalIndex × Memory)
unfolding insert_unless
insert_entry none i idx m = (false, (idx, m))
insert_entry (some entry) i idx m =
    insert_unless (search m idx.buckets idx.num_buckets entry.uri_hash entry.uri)
      (bucket_of entry.uri_hash idx.num_buckets) i idx m

-- Whether the entry was inserted; a duplicate is not.
unfoldable pub global_index_insert : ℕ → GlobalIndex → Memory → Bool × (GlobalIndex × Memory)
unfolding insert_entry
global_index_insert i idx m = insert_entry (get_elem? m.entries i) i idx m

unfoldable pub link_entry : Option Entry → ℕ → BackendIndex → Memory → BackendIndex × Memory
link_entry none i idx m = (idx, m)
link_entry (some entry) i idx m =
    let linked =
      link (bucket_of entry.uri_hash idx.num_buckets) i idx.buckets (index_entry_get i m) in
    (
      record idx { buckets = linked.0; num_entries = (idx.num_entries + 1) % 2 ^ 64; dirty = true },
      linked.1,
    )

-- The index holds a reference of its own.
unfoldable pub backend_index_insert : ℕ → BackendIndex → Memory → BackendIndex × Memory
unfolding link_entry
backend_index_insert i idx m = link_entry (get_elem? m.entries i) i idx m

unfoldable pub backend_index_lookup : List ℕ → BackendIndex → Memory → Option ℕ × BackendIndex
backend_index_lookup uri idx m =
    let looked = record idx { stat_lookups = (idx.stat_lookups + 1) % 2 ^ 64 } in
    elim (search m idx.buckets idx.num_buckets (index_hash_string uri) uri) [
      | found i ↦ (some i, record looked { stat_hits = (idx.stat_hits + 1) % 2 ^ 64 })
      | missing ↦ (none, looked)
      | stuck ↦ (none, looked)
    ]
