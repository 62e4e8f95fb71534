-- ===== src/Backend/Migration.antt =====
-- lib/backend/backend.c: objects that move between backends, into the cache and out of it. A backend
-- is changed at its identifier, which is its place in the manager.
pub mod Homes
pub mod Ends
pub mod Outcome
use objmapper.Base.{
  ℕ, ◌+◌, ◌-◌, ◌%◌, ◌^◌, Bool, true, false, not, ◌&&◌, ◌||◌, Option, none, some, List, [], ◌∷◌,
  get_elem?, ◌==◌, if◌then◌else◌,
}
use objmapper.Index.Entry.{
  Entry, Memory, FdRef, open_create, unlink, close, sendfile, call, update_entry, fd_ref_acquire,
  fd_ref_release,
}
use objmapper.Index.Tables.{backend_index_insert, path_of}
use objmapper.Index.Removal.{less_one, backend_index_remove, global_index_update_backend, moved_to}
use objmapper.Backend.Types.{
  flag_ephemeral_only, flag_migration_src, flag_migration_dst, index_flag_ephemeral, has_flag,
  BackendInfo, Manager, Opened, plus, minus,
}
use objmapper.Backend.Registry.{backend_manager_get_backend, update_backend}
use objmapper.Backend.Objects.{object_path, entry_of, find, uncount}

-- What the kernel answers in one migration: to the two lookups, to the open calls of the new file
-- and of the source (the second only where the entry has no descriptor), and to sendfile, whose
-- result is its 64 bits.
pub record MigrateAnswers : Type 0 where
  pub found : Opened
  pub dst : Option ℕ
  pub src : Option ℕ
  pub copied : ℕ
  pub again : Opened

-- An ephemeral object goes only to a backend that is for them.
unfoldable pub is_safe : Entry → Option BackendInfo → Bool
is_safe entry none = not (has_flag entry.flags index_flag_ephemeral)
is_safe entry (some target) =
    not (has_flag entry.flags index_flag_ephemeral) || has_flag target.flags flag_ephemeral_only

abbrev pub may_migrate : BackendInfo → BackendInfo → Bool
may_migrate src dst = has_flag src.flags flag_migration_src && has_flag dst.flags flag_migration_dst

abbrev pub move_out : ℕ → BackendInfo → BackendInfo
move_out size b = record b {
  object_count = less_one b.object_count;
  used_bytes = minus b.used_bytes size;
  migrations_out = plus b.migrations_out 1;
}

abbrev pub move_in : ℕ → BackendInfo → BackendInfo
move_in size b = record b {
  object_count = plus b.object_count 1;
  used_bytes = plus b.used_bytes size;
  migrations_in = plus b.migrations_in 1;
}

-- The file is copied: the entry moves between the indexes, and the file at its path is unlinked.
unfoldable pub commit_move :
    MigrateAnswers
    → List ℕ
    → ℕ
    → ℕ
    → List ℕ
    → BackendInfo
    → BackendInfo
    → Manager
    → Memory
    → Manager × Memory
commit_move answers uri i size dst_path src dst mgr m =
    let from_src = backend_index_remove uri src.index m in
    let changed = update_entry i (moved_to dst.id dst_path) from_src.1.1 in
    let updated =
      global_index_update_backend answers.again.rdwr answers.again.rdonly answers.again.now uri
        dst.id dst_path mgr.global_index changed in
    let into_dst = backend_index_insert i dst.index updated.1.1 in
    let left = update_backend src.id (λ b. record (move_out size b) { index = from_src.1.0 }) mgr in
    (
      record (update_backend dst.id (λ b. record (move_in size b) { index = into_dst.0 }) left) {
        global_index = updated.1.0;
      },
      call (unlink (path_of (get_elem? into_dst.1.entries i))) into_dst.1,
    )

-- The reference is released and the new file closed; a short copy is given up.
unfoldable pub finish_copy :
    MigrateAnswers
    → List ℕ
    → ℕ
    → Entry
    → List ℕ
    → ℕ
    → FdRef
    → BackendInfo
    → BackendInfo
    → Manager
    → Memory
    → Bool × (Manager × Memory)
unfolding commit_move
finish_copy answers uri i entry dst_path dst_fd ref src dst mgr m =
    let closed = call (close dst_fd) (fd_ref_release ref m).1 in
    if answers.copied == entry.size_bytes
    then (true, commit_move answers uri i entry.size_bytes dst_path src dst mgr closed)
    else (false, (mgr, call (unlink dst_path) closed))

unfoldable pub copy_file :
    Option ℕ
    → MigrateAnswers
    → List ℕ
    → ℕ
    → Entry
    → List ℕ
    → ℕ
    → FdRef
    → BackendInfo
    → BackendInfo
    → Manager
    → Memory
    → Bool × (Manager × Memory)
unfolding finish_copy
copy_file none answers uri i entry dst_path dst_fd ref src dst mgr m =
    (false, (mgr, (fd_ref_release ref (call (unlink dst_path) (call (close dst_fd) m))).1))
copy_file (some src_fd) answers uri i entry dst_path dst_fd ref src dst mgr m =
    finish_copy answers uri i entry dst_path dst_fd ref src dst mgr
      (call (sendfile dst_fd src_fd entry.size_bytes) m)

unfoldable pub open_target :
    Option ℕ
    → MigrateAnswers
    → List ℕ
    → ℕ
    → Entry
    → List ℕ
    → FdRef
    → BackendInfo
    → BackendInfo
    → Manager
    → Memory
    → Bool × (Manager × Memory)
unfolding copy_file
open_target none answers uri i entry dst_path ref src dst mgr m =
    (false, (mgr, (fd_ref_release ref m).1))
open_target (some dst_fd) answers uri i entry dst_path ref src dst mgr m =
    let acquired = fd_ref_acquire answers.src ref m in
    copy_file acquired.0 answers uri i entry dst_path dst_fd acquired.1.0 src dst mgr acquired.1.1

-- Both backends are there.
unfoldable pub migrate_between :
    Option BackendInfo
    → Option BackendInfo
    → MigrateAnswers
    → List ℕ
    → ℕ
    → Entry
    → FdRef
    → Manager
    → Memory
    → Bool × (Manager × Memory)
unfolding open_target
migrate_between none dst answers uri i entry ref mgr m = (false, (mgr, (fd_ref_release ref m).1))
migrate_between (some src) none answers uri i entry ref mgr m =
    (false, (mgr, (fd_ref_release ref m).1))
migrate_between (some src) (some dst) answers uri i entry ref mgr m =
    let dst_path = object_path dst.mount_path uri in
    if may_migrate src dst
    then open_target answers.dst answers uri i entry dst_path ref src dst mgr
        (call (open_create dst_path) m)
    else (false, (mgr, (fd_ref_release ref m).1))

abbrev pub is_target : ℕ → Option ℕ → Bool
is_target id none = false
is_target id (some target) = id == target

unfoldable pub migrate_entry :
    Option Entry
    → MigrateAnswers
    → List ℕ
    → Option ℕ
    → ℕ
    → FdRef
    → Manager
    → Memory
    → Bool × (Manager × Memory)
unfolding migrate_between
migrate_entry none answers uri target i ref mgr m = (false, (mgr, m))
migrate_entry (some entry) answers uri target i ref mgr m =
    if not (is_target entry.backend_id target)
      && is_safe entry (backend_manager_get_backend mgr target)
    then migrate_between (backend_manager_get_backend mgr (some entry.backend_id))
        (backend_manager_get_backend mgr target) answers uri i entry ref mgr m
    else (false, (mgr, (fd_ref_release ref m).1))

unfoldable pub migrate_at :
    Option ℕ
    → MigrateAnswers
    → List ℕ
    → Option ℕ
    → FdRef
    → Manager
    → Memory
    → Bool × (Manager × Memory)
unfolding migrate_entry
migrate_at none answers uri target ref mgr m = (false, (mgr, m))
migrate_at (some i) answers uri target ref mgr m =
    migrate_entry (get_elem? m.entries i) answers uri target i ref mgr m

unfoldable pub migrate_found :
    Option FdRef → MigrateAnswers → List ℕ → Option ℕ → Manager → Memory → Bool × (Manager × Memory)
unfolding migrate_at
migrate_found none answers uri target mgr m = (false, (mgr, m))
migrate_found (some ref) answers uri target mgr m =
    migrate_at ref.entry answers uri target ref mgr m

-- Whether the object was moved.
unfoldable pub backend_migrate_object :
    MigrateAnswers → List ℕ → Option ℕ → Manager → Memory → Bool × (Manager × Memory)
unfolding find migrate_found
backend_migrate_object answers uri target mgr m =
    let found = find answers.found uri mgr m in
    migrate_found found.0 answers uri target found.1.0 found.1.1

abbrev pub backend_id_of : Option Entry → Option ℕ
backend_id_of none = none
backend_id_of (some entry) = some entry.backend_id

abbrev pub same_id : Option ℕ → Option ℕ → Bool
same_id none none = true
same_id none (some b) = false
same_id (some a) none = false
same_id (some a) (some b) = a == b

-- The object is looked up and released, and migrated unless it stands where `stay` says.
unfoldable pub move_found :
    Option FdRef
    → (Option ℕ → Bool)
    → MigrateAnswers
    → List ℕ
    → Option ℕ
    → Manager
    → Memory
    → Bool × (Manager × Memory)
move_found none stay answers uri target mgr m = (false, (mgr, m))
move_found (some ref) stay answers uri target mgr m =
    let current = backend_id_of (entry_of ref m) in
    let released = (fd_ref_release ref m).1 in
    let moved = backend_migrate_object answers uri target mgr released in
    if stay current then (true, (mgr, released)) else moved

-- An object in the cache stays there.
unfoldable pub backend_cache_object :
    Opened → MigrateAnswers → List ℕ → Manager → Memory → Bool × (Manager × Memory)
unfolding find move_found
backend_cache_object answer answers uri mgr m =
    let found = find answer uri mgr m in
    elim mgr.cache_backend_id [
      | none ↦ (false, (mgr, m))
      | some cache ↦
          move_found found.0 (λ current. same_id current (some cache)) answers uri (some cache)
            found.1.0 found.1.1
    ]

-- An object that is not in the cache stays where it is.
unfoldable pub backend_evict_object :
    Opened → MigrateAnswers → List ℕ → Manager → Memory → Bool × (Manager × Memory)
unfolding find move_found
backend_evict_object answer answers uri mgr m =
    let found = find answer uri mgr m in
    elim mgr.default_backend_id [
      | none ↦ (false, (mgr, m))
      | some home ↦
          move_found found.0 (λ current. not (same_id current mgr.cache_backend_id)) answers uri
            (some home) found.1.0 found.1.1
    ]
