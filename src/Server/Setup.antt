-- ===== src/Server/Setup.antt =====
-- server.c: the backends of the server and their roles.
use objmapper.Base.{ℕ, ◌*◌, ◌^◌, Bool, true, false, Option, none, some, List, [], ◌∷◌, bit_or}
use objmapper.Index.Entry.{Memory, mkdir, call}
use objmapper.Backend.Types.{
  Manager, memory, ssd, flag_ephemeral_only, flag_persistent, flag_enabled, flag_migration_src,
  flag_migration_dst,
}
use objmapper.Backend.Registry.{
  backend_manager_create, backend_manager_register, backend_manager_set_default,
  backend_manager_set_ephemeral, backend_manager_set_cache, backend_start_caching,
  backend_stop_caching, backend_manager_destroy,
}
use objmapper.Backend.Objects.Scan.{Listing, backend_manager_scan}

-- Of the two backends: what memory reads past a short index file, that file, and the directory;
-- and whether the caching thread starts.
pub record SetupAnswers : Type 0 where
  pub stale : List ℕ
  pub memory_file : Option (List ℕ)
  pub persistent_file : Option (List ℕ)
  pub memory_listing : Listing
  pub persistent_listing : Listing
  pub thread_created : Bool

-- "Memory Cache"
abbrev pub memory_name : List ℕ
memory_name = b'M' ∷ b'e' ∷ b'm' ∷ b'o' ∷ b'r' ∷ b'y' ∷ b' ' ∷ b'C' ∷ b'a' ∷ b'c' ∷ b'h' ∷ b'e' ∷ []

-- "Persistent SSD"
abbrev pub persistent_name : List ℕ
persistent_name =
    b'P' ∷ b'e' ∷ b'r' ∷ b's' ∷ b'i' ∷ b's' ∷ b't' ∷ b'e' ∷ b'n' ∷ b't' ∷ b' ' ∷ b'S' ∷ b'S' ∷ b'D'
    ∷ []

abbrev pub memory_flags : ℕ
memory_flags =
    bit_or (bit_or (bit_or flag_ephemeral_only flag_enabled) flag_migration_src) flag_migration_dst

abbrev pub persistent_flags : ℕ
persistent_flags =
    bit_or (bit_or (bit_or flag_persistent flag_enabled) flag_migration_src) flag_migration_dst

-- Roles, scans and caching, once both backends are registered.
unfoldable pub configure : SetupAnswers → Option ℕ → Option ℕ → Manager → Memory → Manager × Memory
configure answers memory_id persistent_id mgr m =
    let roles =
      (backend_manager_set_cache memory_id
        (backend_manager_set_ephemeral memory_id
          (backend_manager_set_default persistent_id mgr).1).1).1 in
    let first = (backend_manager_scan memory_id answers.memory_listing roles m).1 in
    let second =
      (backend_manager_scan persistent_id answers.persistent_listing first.0 first.1).1 in
    ((backend_start_caching answers.thread_created 1000000 second.0).1, second.1)

unfoldable pub configure_if :
    SetupAnswers → Option ℕ → Option ℕ → Manager → Memory → Bool × (Manager × Memory)
unfolding configure
configure_if answers memory_id none mgr m = (false, (mgr, m))
configure_if answers memory_id (some id) mgr m = (true, configure answers memory_id (some id) mgr m)

unfoldable pub register_persistent :
    SetupAnswers → Option ℕ → List ℕ → Manager → Memory → Bool × (Manager × Memory)
unfolding configure_if
register_persistent answers none path mgr m = (false, (mgr, m))
register_persistent answers (some memory_id) path mgr m =
    let registered =
      backend_manager_register answers.stale answers.persistent_file ssd path persistent_name
        (100 * 2 ^ 30) persistent_flags mgr (call (mkdir path) m) in
    configure_if answers (some memory_id) registered.0 registered.1.0 registered.1.1

-- Whether both backends were registered.
unfoldable pub init_backends : SetupAnswers → List ℕ → List ℕ → Memory → Bool × (Manager × Memory)
unfolding register_persistent
init_backends answers memory_path persistent_path m =
    let registered =
      backend_manager_register answers.stale answers.memory_file memory memory_path memory_name
        (4 * 2 ^ 30) memory_flags (backend_manager_create 8192 2000) (call (mkdir memory_path) m) in
    register_persistent answers registered.0 persistent_path registered.1.0 registered.1.1

unfoldable pub cleanup_backends : Manager → Memory → Memory
cleanup_backends mgr m = backend_manager_destroy (backend_stop_caching mgr) m
