-- ===== src/Index/Removal.antt =====
-- lib/index/index.c: what takes entries out of the indexes, or changes them there.
use objmapper.Base.{
  ℕ, zero, suc, ◌+◌, ◌-◌, ◌%◌, ◌^◌, Bool, true, false, Option, none, some, List, [], ◌∷◌, length,
  get_elem?, set, if◌then◌else◌,
}
use objmapper.Index.Entry.{
  Entry, Memory, FdRef, call, close, increment, update_entry, index_hash_string, index_entry_put,
  fd_ref_release,
}
use objmapper.Index.Tables.{
  GlobalIndex, BackendIndex, bucket_of, head_of, matches, next_of, global_index_lookup,
}

-- Where an entry is linked: from the bucket or from another entry, and its address. `endless` is no
-- C value: the chain does not end within the fuel.
pub data Located : Type 0 where
  at_link : Option ℕ → ℕ → Located
  nowhere : Located
  endless : Located

unfoldable pub locate_entry : Option Entry → Option ℕ → ℕ → ℕ → List ℕ → Located → Located
locate_entry none prev i hash uri rest = endless
locate_entry (some entry) prev i hash uri rest =
    if matches entry hash uri then at_link prev i else rest

-- `prev_next` runs one link behind `entry`.
unfoldable pub locate : ℕ → Memory → ℕ → List ℕ → Option ℕ → Option ℕ → Located
unfolding locate_entry
locate fuel m hash uri prev none = nowhere
locate zero m hash uri prev (some i) = endless
locate (suc fuel) m hash uri prev (some i) =
    let rest = locate fuel m hash uri (some i) (next_of (get_elem? m.entries i)) in
    locate_entry (get_elem? m.entries i) prev i hash uri rest

-- `atomic_store(prev_next, next)`
unfoldable pub unlink_entry :
    Option ℕ → ℕ → Option ℕ → List (Option ℕ) → Memory → List (Option ℕ) × Memory
unlink_entry none b next buckets m = (set buckets b next, m)
unlink_entry (some p) b next buckets m = (buckets, update_entry p (λ e. record e { next = next }) m)

abbrev pub fd_of : Option Entry → Option ℕ
fd_of none = none
fd_of (some entry) = entry.fd

-- A size_t less 1.
abbrev pub less_one : ℕ → ℕ
less_one n = (n + (2 ^ 64 - 1)) % 2 ^ 64

-- The descriptor of an entry is exchanged for -1, and closed if it was open.
unfoldable pub drop_fd : Option ℕ → ℕ → Memory → Memory
drop_fd none i m = m
drop_fd (some fd) i m = call (close fd) (update_entry i (λ e. record e { fd = none }) m)

unfoldable pub count_closed : Option ℕ → ℕ → ℕ
count_closed none n = n
count_closed (some fd) n = less_one n

unfoldable pub global_remove_at : Located → ℕ → GlobalIndex → Memory → Bool × (GlobalIndex × Memory)
unfolding unlink_entry drop_fd count_closed
global_remove_at nowhere b idx m = (false, (idx, m))
global_remove_at endless b idx m = (false, (idx, m))
global_remove_at (at_link prev i) b idx m =
    let unlinked = unlink_entry prev b (next_of (get_elem? m.entries i)) idx.buckets m in
    let fd = fd_of (get_elem? unlinked.1.entries i) in
    (
      true,
      (
        record idx {
          buckets = unlinked.0;
          num_open_fds = count_closed fd idx.num_open_fds;
          num_entries = less_one idx.num_entries;
        },
        index_entry_put i (drop_fd fd i unlinked.1),
      ),
    )

-- Whether the URI was in the index.
unfoldable pub global_index_remove : List ℕ → GlobalIndex → Memory → Bool × (GlobalIndex × Memory)
unfolding locate global_remove_at
global_index_remove uri idx m =
    let hash = index_hash_string uri in
    let b = bucket_of hash idx.num_buckets in
    global_remove_at (locate (length m.entries) m hash uri none (head_of idx.buckets b)) b idx m

unfoldable pub backend_remove_at :
    Located → ℕ → BackendIndex → Memory → Bool × (BackendIndex × Memory)
unfolding unlink_entry
backend_remove_at nowhere b idx m = (false, (idx, m))
backend_remove_at endless b idx m = (false, (idx, m))
backend_remove_at (at_link prev i) b idx m =
    let unlinked = unlink_entry prev b (next_of (get_elem? m.entries i)) idx.buckets m in
    (
      true,
      (
        record idx { buckets = unlinked.0; num_entries = less_one idx.num_entries; dirty = true },
        index_entry_put i unlinked.1,
      ),
    )

unfoldable pub backend_index_remove :
    List ℕ → BackendIndex → Memory → Bool × (BackendIndex × Memory)
unfolding locate backend_remove_at
backend_index_remove uri idx m =
    let hash = index_hash_string uri in
    let b = bucket_of hash idx.num_buckets in
    backend_remove_at (locate (length m.entries) m hash uri none (head_of idx.buckets b)) b idx m

-- The descriptor of an entry is exchanged, and its generation counted.
unfoldable pub renew_fd : Option ℕ → ℕ → Memory → Memory
renew_fd none i m = m
renew_fd (some fd) i m =
    call (close fd)
      (update_entry i (λ e. record e { fd = none; fd_generation = increment e.fd_generation }) m)

abbrev pub moved_to : ℕ → List ℕ → Entry → Entry
moved_to backend_id backend_path e = record e {
  backend_id = backend_id;
  backend_path = backend_path;
}

-- The reference is that of an entry that was found.
unfoldable pub update_at :
    Option ℕ → FdRef → ℕ → List ℕ → GlobalIndex → Memory → GlobalIndex × Memory
unfolding renew_fd count_closed
update_at none ref backend_id backend_path idx m = (idx, m)
update_at (some i) ref backend_id backend_path idx m =
    let fd = fd_of (get_elem? m.entries i) in
    let changed = update_entry i (moved_to backend_id backend_path) (renew_fd fd i m) in
    (record idx { num_open_fds = count_closed fd idx.num_open_fds }, (fd_ref_release ref changed).1)

unfoldable pub update_found :
    Option FdRef → ℕ → List ℕ → GlobalIndex → Memory → Bool × (GlobalIndex × Memory)
unfolding update_at
update_found none backend_id backend_path idx m = (false, (idx, m))
update_found (some ref) backend_id backend_path idx m =
    (true, update_at ref.entry ref backend_id backend_path idx m)

unfoldable pub global_index_update_backend :
    Option ℕ
    → Option ℕ
    → ℕ
    → List ℕ
    → ℕ
    → List ℕ
    → GlobalIndex
    → Memory
    → Bool × (GlobalIndex × Memory)
unfolding update_found
global_index_update_backend rdwr rdonly now uri backend_id backend_path idx m =
    let looked = global_index_lookup rdwr rdonly now uri idx m in
    update_found looked.0 backend_id backend_path looked.1.0 looked.1.1

-- The next link is read before an entry is put.
unfoldable pub put_chain : ℕ → Option ℕ → Memory → Memory
put_chain fuel none m = m
put_chain zero (some i) m = m
put_chain (suc fuel) (some i) m =
    put_chain fuel (next_of (get_elem? m.entries i)) (index_entry_put i m)

unfoldable pub put_chains : List (Option ℕ) → Memory → Memory
unfolding put_chain
put_chains [] m = m
put_chains (head ∷ buckets) m = put_chains buckets (put_chain (length m.entries) head m)

unfoldable pub global_index_destroy : GlobalIndex → Memory → Memory
unfolding put_chains
global_index_destroy idx m = put_chains idx.buckets m

unfoldable pub backend_index_destroy : BackendIndex → Memory → Memory
unfolding put_chains
backend_index_destroy idx m = put_chains idx.buckets m
