-- ===== src/Backend/Objects/Scan.antt =====
-- lib/backend/backend.c: the scan of a mounted directory, which enters the files that it finds.
use objmapper.Base.{
  ℕ, ◌+◌, Bool, Option, none, some, List, [], ◌∷◌, ◌++◌, length, take, drop, ◌||◌, bytes_eq,
  if◌then◌else◌,
}
use objmapper.Index.Entry.{Entry, Memory, index_entry_create, index_entry_put}
use objmapper.Index.Tables.{global_index_insert, backend_index_insert}
use objmapper.Backend.Types.{
  flag_ephemeral_only, flag_enabled, index_flag_ephemeral, index_flag_persistent, has_flag,
  BackendInfo, Manager, plus,
}
use objmapper.Backend.Registry.{backend_manager_get_backend, update_backend}

-- A file system as opendir, readdir and stat show it: `other` is neither a directory nor a regular
-- file, or stat fails on it; a directory that cannot be opened shows no names.
mutual
  pub data Node : Type 0 where
    file : ℕ → Node
    directory : Listing → Node
    other : Node

  pub data Listing : Type 0 where
    end : Listing
    item : List ℕ → Node → Listing → Listing

-- The count of entered files, the manager and the memory.
abbrev pub Scanned : Type 0
Scanned = ℕ × (Manager × Memory)

abbrev pub scan_entry : List ℕ → ℕ → List ℕ → BackendInfo → ℕ → Entry
scan_entry uri id path backend size = record (index_entry_create uri id path) {
  size_bytes = size;
  flags =
      if has_flag backend.flags flag_ephemeral_only
      then index_flag_ephemeral
      else index_flag_persistent;
}

abbrev pub count_file : ℕ → BackendInfo → BackendInfo
count_file size b = record b {
  object_count = plus b.object_count 1;
  used_bytes = plus b.used_bytes size;
}

unfoldable pub keep_file : ℕ → ℕ → ℕ → Option BackendInfo → Scanned → Scanned
keep_file i id size none s = s
keep_file i id size (some backend) (count, (mgr, m)) =
    let inserted = backend_index_insert i backend.index m in
    (
      count + 1,
      (
        record (update_backend id (λ b. record (count_file size b) { index = inserted.0 }) mgr) {
          total_objects = plus mgr.total_objects 1;
          total_bytes = plus mgr.total_bytes size;
        },
        inserted.1,
      ),
    )

-- The reference of the creator is released, whether or not the entry was inserted.
unfoldable pub scan_file : ℕ → ℕ → List ℕ → Option BackendInfo → Scanned → Scanned
unfolding keep_file
scan_file id size path none s = s
scan_file id size path (some backend) (count, (mgr, m)) =
    let i = length m.entries in
    let entry = scan_entry (drop (length backend.mount_path) path) id path backend size in
    let inserted =
      global_index_insert i mgr.global_index (record m { entries = m.entries ++ entry ∷ [] }) in
    let entered : Scanned = (count, (record mgr { global_index = inserted.1.0 }, inserted.1.1)) in
    let kept = if inserted.0 then keep_file i id size (some backend) entered else entered in
    (kept.0, (kept.1.0, index_entry_put i kept.1.1))

abbrev pub is_dot : List ℕ → Bool
is_dot name = bytes_eq name (b'.' ∷ []) || bytes_eq name (b'.' ∷ (b'.' ∷ []))

abbrev pub path_in : List ℕ → List ℕ → List ℕ
path_in dir_path name = take 2047 (dir_path ++ b'/' ∷ name)

unfoldable mutual
  -- The backend is looked up again, since entering a file changes it.
  pub scan_node : ℕ → List ℕ → Node → Scanned → Scanned
  scan_node id full_path (file size) s =
      scan_file id size full_path (backend_manager_get_backend s.1.0 (some id)) s
  scan_node id full_path (directory listing) s = scan_dir id full_path listing s
  scan_node id full_path other s = s

  pub scan_dir : ℕ → List ℕ → Listing → Scanned → Scanned
  scan_dir id dir_path end s = s
  scan_dir id dir_path (item d_name node rest) s =
      scan_dir id dir_path rest
        (if is_dot d_name then s else scan_node id (path_in dir_path d_name) node s)

unfoldable pub scan_backend :
    Option BackendInfo → ℕ → Listing → Manager → Memory → Option ℕ × (Manager × Memory)
scan_backend none id listing mgr m = (none, (mgr, m))
scan_backend (some backend) id listing mgr m =
    let scanned = scan_dir id backend.mount_path listing (0, (mgr, m)) in
    if has_flag backend.flags flag_enabled then (some scanned.0, scanned.1) else (none, (mgr, m))

-- How many files were entered, or -1. `listing` is the directory at the mount path.
unfoldable pub backend_manager_scan :
    Option ℕ → Listing → Manager → Memory → Option ℕ × (Manager × Memory)
unfolding scan_backend
backend_manager_scan none listing mgr m = (none, (mgr, m))
backend_manager_scan (some id) listing mgr m =
    scan_backend (backend_manager_get_backend mgr (some id)) id listing mgr m
