-- ===== src/Backend/Registry.antt =====
-- lib/backend/backend.c: the manager, the registration of backends, and their roles and settings.
pub mod Roles
pub mod Settings
use objmapper.Base.{
  ℕ, zero, suc, ◌+◌, ◌-◌, ◌*◌, ◌/◌, ◌%◌, ◌^◌, Bool, true, false, not, Option, none, some, List, [],
  ◌∷◌, ◌++◌, length, get_elem?, set, take, leb, ◌==◌, bit_and, bit_or, if◌then◌else◌,
}
use objmapper.Index.Entry.{Memory}
use objmapper.Index.Tables.{BackendIndex, global_index_create, backend_index_create}
use objmapper.Index.Removal.{global_index_destroy, backend_index_destroy}
use objmapper.Index.Persist.{backend_index_load}
use objmapper.Backend.Types.{
  BackendType, memory, nvme, ssd, hdd, network, MigrationPolicy, policy_hybrid, flag_ephemeral_only,
  flag_enabled, has_flag, BackendInfo, Manager,
}

-- backend_default_perf_factor, in tenths.
abbrev perf_factor_tenths : BackendType → ℕ
perf_factor_tenths memory = 10
perf_factor_tenths nvme = 30
perf_factor_tenths ssd = 75
perf_factor_tenths hdd = 800
perf_factor_tenths network = 5000

unfoldable pub backend_expected_latency : BackendType → ℕ
backend_expected_latency kind = 8 * perf_factor_tenths kind / 10

unfoldable pub backend_manager_create : ℕ → ℕ → Manager
backend_manager_create index_buckets max_open_fds = record {
  global_index = global_index_create index_buckets max_open_fds;
  backends = [];
  max_backends = 16;
  default_backend_id = none;
  ephemeral_backend_id = none;
  cache_backend_id = none;
  cache_running = false;
  cache_check_interval_us = 5 * 1000000;
  total_objects = 0;
  total_bytes = 0;
}

-- "/.objmapper.idx"
abbrev index_name : List ℕ
index_name =
    b'/' ∷ b'.' ∷ b'o' ∷ b'b' ∷ b'j' ∷ b'm' ∷ b'a' ∷ b'p' ∷ b'p' ∷ b'e' ∷ b'r' ∷ b'.' ∷ b'i' ∷ b'd'
    ∷ b'x' ∷ []

unfoldable pub new_backend : ℕ → BackendType → List ℕ → List ℕ → ℕ → ℕ → BackendIndex → BackendInfo
new_backend id kind mount_path name capacity_bytes flags index = record {
  id = id;
  kind = kind;
  mount_path = mount_path;
  name = name;
  flags = bit_or flags flag_enabled;
  expected_latency_us = backend_expected_latency kind;
  capacity_bytes = capacity_bytes;
  used_bytes = 0;
  object_count = 0;
  migration_policy = policy_hybrid;
  hotness_halflife_us = 3600 * 1000000;
  index = index;
  reads = 0;
  writes = 0;
  migrations_in = 0;
  migrations_out = 0;
}

-- The new identifier or -1. `file` is the index file on the backend, none where there is none; what
-- is loaded from it stays out of the global index.
unfoldable pub backend_manager_register :
    List ℕ
    → Option (List ℕ)
    → BackendType
    → List ℕ
    → List ℕ
    → ℕ
    → ℕ
    → Manager
    → Memory
    → Option ℕ × (Manager × Memory)
unfolding new_backend
backend_manager_register stale file kind mount_path name capacity_bytes flags mgr m =
    let id = length mgr.backends in
    let index = backend_index_create id (some (take 511 (mount_path ++ index_name))) (256 * 1024) in
    let loaded = backend_index_load stale file index m in
    let backend = new_backend id kind mount_path name capacity_bytes flags loaded.1.0 in
    if leb mgr.max_backends id
    then (none, (mgr, m))
    else (some id, (record mgr { backends = mgr.backends ++ backend ∷ [] }, loaded.1.1))

unfoldable pub backend_manager_get_backend : Manager → Option ℕ → Option BackendInfo
backend_manager_get_backend mgr none = none
backend_manager_get_backend mgr (some i) = get_elem? mgr.backends i

unfoldable pub set_default_to : Option BackendInfo → Option ℕ → Manager → Bool × Manager
set_default_to none id mgr = (false, mgr)
set_default_to (some backend) id mgr =
    if has_flag backend.flags flag_ephemeral_only
    then (false, mgr)
    else (true, record mgr { default_backend_id = id })

-- The default backend holds persistent objects.
unfoldable pub backend_manager_set_default : Option ℕ → Manager → Bool × Manager
unfolding set_default_to
backend_manager_set_default id mgr = set_default_to (backend_manager_get_backend mgr id) id mgr

unfoldable pub set_ephemeral_to : Option BackendInfo → Option ℕ → Manager → Bool × Manager
set_ephemeral_to none id mgr = (false, mgr)
set_ephemeral_to (some backend) id mgr =
    if not (has_flag backend.flags flag_ephemeral_only)
    then (false, mgr)
    else (true, record mgr { ephemeral_backend_id = id })

unfoldable pub backend_manager_set_ephemeral : Option ℕ → Manager → Bool × Manager
unfolding set_ephemeral_to
backend_manager_set_ephemeral id mgr = set_ephemeral_to (backend_manager_get_backend mgr id) id mgr

abbrev pub is_memory : BackendType → Bool
is_memory memory = true
is_memory nvme = false
is_memory ssd = false
is_memory hdd = false
is_memory network = false

unfoldable pub set_cache_to : Option BackendInfo → Option ℕ → Manager → Bool × Manager
set_cache_to none id mgr = (false, mgr)
set_cache_to (some backend) id mgr =
    if not (is_memory backend.kind)
    then (false, mgr)
    else (true, record mgr { cache_backend_id = id })

unfoldable pub backend_manager_set_cache : Option ℕ → Manager → Bool × Manager
unfolding set_cache_to
backend_manager_set_cache id mgr = set_cache_to (backend_manager_get_backend mgr id) id mgr

abbrev pub replace_backend :
    Option BackendInfo → ℕ → (BackendInfo → BackendInfo) → Manager → Manager
replace_backend none i change mgr = mgr
replace_backend (some backend) i change mgr = record mgr {
  backends = set mgr.backends i (change backend);
}

-- The backend at an identifier is changed.
unfoldable pub update_backend : ℕ → (BackendInfo → BackendInfo) → Manager → Manager
update_backend i change mgr = replace_backend (get_elem? mgr.backends i) i change mgr

-- Whether there is a backend, and the manager with that one changed.
unfoldable pub change_backend : Option ℕ → (BackendInfo → BackendInfo) → Manager → Bool × Manager
unfolding update_backend
change_backend none change mgr = (false, mgr)
change_backend (some i) change mgr =
    (elim (get_elem? mgr.backends i) [ none ↦ false | some b ↦ true ], update_backend i change mgr)

-- `flags |= ENABLED` or `flags &= ~ENABLED`, on 32 bits.
abbrev pub with_enabled : Bool → BackendInfo → BackendInfo
with_enabled true b = record b { flags = bit_or b.flags flag_enabled }
with_enabled false b = record b { flags = bit_and b.flags (2 ^ 32 - 1 - flag_enabled) }

unfoldable pub backend_set_enabled : Option ℕ → Bool → Manager → Bool × Manager
unfolding change_backend
backend_set_enabled id enabled mgr = change_backend id (with_enabled enabled) mgr

unfoldable pub backend_set_migration_policy : Option ℕ → MigrationPolicy → Manager → Bool × Manager
unfolding change_backend
backend_set_migration_policy id policy mgr =
    change_backend id (λ b. record b { migration_policy = policy }) mgr

-- Capacity, used bytes and number of objects.
unfoldable pub backend_get_status : Option ℕ → Manager → Option (ℕ × (ℕ × ℕ))
backend_get_status id mgr = elim (backend_manager_get_backend mgr id) [
  | none ↦ none
  | some b ↦ some (b.capacity_bytes, (b.used_bytes, b.object_count))
]

-- Reads, writes, and migrations in and out.
unfoldable pub backend_get_stats : Option ℕ → Manager → Option (ℕ × (ℕ × (ℕ × ℕ)))
backend_get_stats id mgr = elim (backend_manager_get_backend mgr id) [
  | none ↦ none
  | some b ↦ some (b.reads, (b.writes, (b.migrations_in, b.migrations_out)))
]

-- The caching thread starts unless it runs; `created` is what pthread_create answers.
unfoldable pub backend_start_caching : Bool → ℕ → Manager → Bool × Manager
backend_start_caching created check_interval_us mgr = if mgr.cache_running then (true, mgr) else (
  created,
  record mgr { cache_check_interval_us = check_interval_us; cache_running = created },
)

unfoldable pub backend_stop_caching : Manager → Manager
backend_stop_caching mgr = record mgr { cache_running = false }

-- The indexes of backends put their references.
unfoldable pub destroy_backends : List BackendInfo → Memory → Memory
destroy_backends [] m = m
destroy_backends (b ∷ bs) m = destroy_backends bs (backend_index_destroy b.index m)

unfoldable pub backend_manager_destroy : Manager → Memory → Memory
unfolding destroy_backends
backend_manager_destroy mgr m =
    global_index_destroy mgr.global_index (destroy_backends mgr.backends m)

-- The list of a backend's objects is always empty.
unfoldable pub backend_list_objects : Option ℕ → Manager → Option (List (List ℕ))
backend_list_objects id mgr = elim (backend_manager_get_backend mgr id) [
  | none ↦ none
  | some b ↦ some []
]
