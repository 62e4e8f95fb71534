-- ===== src/Tests/Backend.antt =====
-- The theorems on lib/backend at concrete inputs.
use objmapper.Base.{
  ◌+◌, ◌-◌, bytes_eq, ◌<◌, ◌≡◌, refl, false, arith, length, true, none, some, List, [], ◌∷◌,
}
use objmapper.Index.Entry.{Memory, FdRef, Entry, index_entry_create, index_hash_string}
use objmapper.Index.Tables.{
  found, walk_entry, matches, global_index_insert, insert_entry, insert_unless, search, walk,
  head_of, bucket_of,
}
use objmapper.Index.Tables.References.{opened_fd}
use objmapper.Backend.Types.{
  BackendInfo, policy_hybrid, Manager, CreateReq, Opened, memory, ssd, has_flag,
}
use objmapper.Backend.Registry.{backend_manager_create, backend_manager_get_backend, new_backend}
use objmapper.Backend.Objects.{
  backend_update_size, backend_create_object, backend_get_object, create_at, create_on, create_file,
  enter_object, keep_created, target_of, make_parents, before_last_slash, cons_before, mkdir_p,
  mkdir_path, mkdir_from, strip_slash,
}
use objmapper.Backend.Objects.Size.{IsUsed, backend_update_size-IsUsed}
use objmapper.Backend.Objects.Found.{backend_get_object-backend_create_object}
use objmapper.Backend.Registry.Roles.{HasRoles}
use objmapper.Backend.Registry.Settings.{
  Setting, register, set_default, set_ephemeral, set_cache, apply_settings, apply_settings-HasRoles,
}
use objmapper.Backend.Homes.{homes_of}
use objmapper.Backend.Confinement.{IsConfined}
use objmapper.Backend.Confinement.Calls.{
  ObjectCall, create, get, delete, run_calls, run_calls-IsConfined,
}
use objmapper.Backend.Migration.{MigrateAnswers, backend_migrate_object}
use objmapper.Backend.Migration.Ends.{Ends}
use objmapper.Backend.Migration.Outcome.{found_in, backend_migrate_object-Ends}

abbrev settings : List Setting
settings =
    register [] none memory (b'/' ∷ b'm' ∷ []) (b'm' ∷ []) 4096 49
    ∷ register [] none ssd (b'/' ∷ b's' ∷ []) (b's' ∷ []) 8192 50
    ∷ set_default (some 1)
    ∷ set_ephemeral (some 0)
    ∷ set_cache (some 0)
    ∷ []

abbrev pub no_entries : Memory
no_entries = record { entries = []; calls = [] }

-- A backend in memory and one on disk, with their roles.
abbrev pub two_backends : Manager
two_backends = (apply_settings settings (backend_manager_create 8 4, no_entries)).0

pub two_backends-HasRoles : HasRoles two_backends
two_backends-HasRoles = apply_settings-HasRoles 8 4 settings no_entries

apply_settings-HasRoles_example :
    HasRoles (apply_settings settings (backend_manager_create 8 4, no_entries)).0
apply_settings-HasRoles_example = apply_settings-HasRoles 8 4 settings no_entries

pub nothing-IsConfined : IsConfined two_backends no_entries
unfolding homes_of
nothing-IsConfined i h e = cc

abbrev pub opened : Opened
opened = record { rdwr = some 7; rdonly = none; now = 5 }

abbrev request : CreateReq
request = record {
  uri = b'/' ∷ b'a' ∷ [];
  backend_id = none;
  ephemeral = true;
  size_hint = 0;
  flags = 0;
}

abbrev calls : List ObjectCall
calls =
    create (λ path. true) (some 6) request
    ∷ get opened 6 (b'/' ∷ b'a' ∷ [])
    ∷ delete opened (b'/' ∷ b'a' ∷ [])
    ∷ []

run_calls-IsConfined_example :
    HasRoles (run_calls calls (two_backends, no_entries)).0
    × IsConfined
        (run_calls calls (two_backends, no_entries)).0
        (run_calls calls (two_backends, no_entries)).1
run_calls-IsConfined_example =
    run_calls-IsConfined calls two_backends no_entries ((λ odd. cc), (tt, (tt, tt)))
      two_backends-HasRoles nothing-IsConfined

abbrev with_object : Manager × Memory
with_object = run_calls (create (λ path. true) (some 6) request ∷ []) (two_backends, no_entries)

abbrev migrating : MigrateAnswers
migrating = record { found = opened; dst = some 8; src = some 9; copied = 0; again = opened }

backend_migrate_object-Ends_example :
    Ends
      (found_in (
        search with_object.1 with_object.0.global_index.buckets
          with_object.0.global_index.num_buckets
          (index_hash_string (b'/' ∷ b'a' ∷ []))
          (b'/' ∷ b'a' ∷ [])))
      (some 1)
      (b'/' ∷ b'a' ∷ [])
      with_object.0
      with_object.1
      (backend_migrate_object migrating (b'/' ∷ b'a' ∷ []) (some 1) with_object.0 with_object.1)
backend_migrate_object-Ends_example =
    backend_migrate_object-Ends migrating (b'/' ∷ b'a' ∷ []) (some 1) with_object.0 with_object.1

-- A manager with a backend for ephemeral objects, and one bucket in each index.
abbrev one_backend : Manager
one_backend = record {
  global_index = record {
    buckets = none ∷ [];
    num_buckets = 1;
    num_entries = 0;
    max_open_fds = 4;
    num_open_fds = 0;
    stat_lookups = 0;
    stat_hits = 0;
    stat_misses = 0;
  };
  backends =
      new_backend 0 memory (b'/' ∷ b'm' ∷ []) (b'm' ∷ []) 4096 1 (record {
        backend_id = 0;
        buckets = none ∷ [];
        num_buckets = 1;
        num_entries = 0;
        index_file_path = none;
        dirty = false;
        stat_lookups = 0;
        stat_hits = 0;
      })
      ∷ [];
  max_backends = 16;
  default_backend_id = none;
  ephemeral_backend_id = some 0;
  cache_backend_id = none;
  cache_running = false;
  cache_check_interval_us = 0;
  total_objects = 0;
  total_bytes = 0;
}

in_range :
    bucket_of (index_hash_string request.uri) one_backend.global_index.num_buckets
    < length one_backend.global_index.buckets
unfolding bucket_of index_hash_string
in_range = omega arith

abbrev created : FdRef
created = record { entry = some 0; fd = some 6; generation = 0 }

returned :
    (backend_create_object (λ path. true) (some 6) request one_backend no_entries).0 ≡ some created
unfolding backend_create_object create_at create_on create_file enter_object keep_created target_of
    backend_manager_get_backend has_flag new_backend make_parents before_last_slash cons_before
    mkdir_p mkdir_path mkdir_from strip_slash global_index_insert insert_entry insert_unless search
    walk head_of bucket_of index_entry_create index_hash_string
returned = refl

backend_get_object-backend_create_object_example :
    (backend_get_object opened 9 request.uri
      (backend_create_object (λ path. true) (some 6) request one_backend no_entries).1.0
      (backend_create_object (λ path. true) (some 6) request one_backend no_entries).1.1).0
    ≡ some (record { entry = some 0; fd = opened_fd (some 7) none; generation = 0 })
backend_get_object-backend_create_object_example =
    backend_get_object-backend_create_object (λ path. true) (some 6) request one_backend no_entries
      created opened 9 in_range returned

-- The same with an object of 4 bytes.
abbrev object : Entry
object = record (index_entry_create request.uri 0 (b'/' ∷ b'm' ∷ b'/' ∷ b'a' ∷ [])) {
  size_bytes = 4;
}

abbrev one_object : Memory
one_object = record { entries = object ∷ []; calls = [] }

abbrev used_backend : BackendInfo
used_backend = record {
  id = 0;
  kind = memory;
  mount_path = b'/' ∷ b'm' ∷ [];
  name = b'm' ∷ [];
  flags = 5;
  expected_latency_us = 8;
  capacity_bytes = 4096;
  used_bytes = 10;
  object_count = 1;
  migration_policy = policy_hybrid;
  hotness_halflife_us = 1;
  index = record {
    backend_id = 0;
    buckets = none ∷ [];
    num_buckets = 1;
    num_entries = 0;
    index_file_path = none;
    dirty = false;
    stat_lookups = 0;
    stat_hits = 0;
  };
  reads = 0;
  writes = 1;
  migrations_in = 0;
  migrations_out = 0;
}

abbrev used_manager : Manager
used_manager = record one_backend {
  global_index = record one_backend.global_index { buckets = some 0 ∷ [] };
  backends = used_backend ∷ [];
}

object_found :
    search one_object used_manager.global_index.buckets used_manager.global_index.num_buckets
      (index_hash_string request.uri)
      request.uri
    ≡ found 0
unfolding search walk walk_entry matches head_of bucket_of index_entry_create index_hash_string
    bytes_eq
object_found = refl

backend_update_size-IsUsed_example :
    IsUsed 0 (10 - 4 + 9) (backend_update_size opened request.uri 9 used_manager one_object)
unfolding index_entry_create
backend_update_size-IsUsed_example =
    backend_update_size-IsUsed opened request.uri 9 used_manager one_object 0 object used_backend
      object_found refl refl
      (record { counted_in = omega arith; fits = omega arith; stays = omega arith })
