-- ===== src/Backend/Confinement/Scan.antt =====
-- The scan of a directory marks what it finds as the backend is.
use objmapper.Base.{
  ℕ, ◌≡◌, refl, ap, ◌∙◌, inr, Bool, true, false, Option, none, some, List, [], ◌∷◌, ◌++◌, length,
  drop, get_elem?, if◌then◌else◌,
}
use objmapper.Index.Entry.{Memory, index_entry_create}
use objmapper.Index.Tables.{global_index_insert, backend_index_insert}
use objmapper.Backend.Types.{BackendInfo, Manager, has_flag, flag_enabled, flag_ephemeral_only}
use objmapper.Backend.Registry.{is_memory, backend_manager_get_backend, update_backend}
use objmapper.Backend.Registry.Roles.{
  kind_of, SameRoles, SameRoles-self, SameRoles-trans, SameRoles-update_backend,
}
use objmapper.Backend.Objects.Scan.{
  Node, file, directory, other, Listing, end, item, Scanned, scan_entry, count_file, keep_file,
  scan_file, is_dot, path_in, scan_node, scan_dir, scan_backend, backend_manager_scan,
}
use objmapper.Backend.Homes.{
  Home, home, homes, homes-index_entry_put, homes-global_index_insert, homes-backend_index_insert,
}
use objmapper.Backend.Confinement.{IsConfined, Steps, stays, Steps-IsConfined}
use objmapper.Backend.Confinement.Creation.{with_fields, indexed, homes_of-append}

-- The backends keep their kinds and roles, and the homes stay confined.
pub record Keeps (mgr mgr' : Manager) (m m' : Memory) : Type 0 where
  pub roles : SameRoles mgr mgr'
  pub confined : IsConfined mgr m → IsConfined mgr' m'

pub Steps-Keeps : {mgr mgr' : Manager} {m m' : Memory} → Steps mgr mgr' m m' → Keeps mgr mgr' m m'
Steps-Keeps {mgr} {mgr'} {m} {m'} s = record {
  roles = s.roles;
  confined = Steps-IsConfined mgr mgr' m m' s;
}

pub Keeps-trans : {a b c : Manager} {l m n : Memory} → Keeps a b l m → Keeps b c m n → Keeps a c l n
Keeps-trans r s = record {
  roles = SameRoles-trans r.roles s.roles;
  confined = λ ok. s.confined (r.confined ok);
}

keep_file-Steps :
    (i id size : ℕ) (o : Option BackendInfo) (count : ℕ) (mgr : Manager) (m : Memory)
    → SameRoles mgr (keep_file i id size o (count, (mgr, m))).1.0
      × (homes (keep_file i id size o (count, (mgr, m))).1.1 ≡ homes m)
unfolding keep_file
keep_file-Steps i id size none count mgr m = (SameRoles-self mgr, refl)
keep_file-Steps i id size (some backend) count mgr m =
    let inserted = backend_index_insert i backend.index m in
    (
      with_fields mgr
          (update_backend id (λ b. record (count_file size b) { index = inserted.0 }) mgr) _
          (SameRoles-update_backend id _ mgr (λ b. refl)) refl refl refl refl refl,
      homes-backend_index_insert i backend.index m,
    )

-- The flags of a scanned entry.
scan_flag : (b : Bool) → has_flag (if b then 1 else 2) 1 ≡ true → b ≡ true
unfolding has_flag
scan_flag true on = refl
scan_flag false on = cc

scan_file-Steps :
    (id size : ℕ) (path : List ℕ) (o : Option BackendInfo) (s : Scanned)
    → get_elem? s.1.0.backends id ≡ o
    → Steps s.1.0 (scan_file id size path o s).1.0 s.1.1 (scan_file id size path o s).1.1
unfolding scan_file index_entry_create
scan_file-Steps id size path none s there = stays (SameRoles-self s.1.0) refl
scan_file-Steps id size path (some backend) (count, (mgr, m)) there =
    let i = length m.entries in
    let entry = scan_entry (drop (length backend.mount_path) path) id path backend size in
    let added : Memory = record m { entries = m.entries ++ entry ∷ [] } in
    let inserted = global_index_insert i mgr.global_index added in
    let entered : Scanned = (count, (record mgr { global_index = inserted.1.0 }, inserted.1.1)) in
    let kept =
      keep_file-Steps i id size (some backend) count (record mgr { global_index = inserted.1.0 })
        inserted.1.1 in
    let grown : homes inserted.1.1 ≡ homes m ++ home entry ∷ [] =
      homes-global_index_insert i mgr.global_index added ∙ homes_of-append m.entries entry in
    let both =
      choose inserted.0 (keep_file i id size (some backend) entered) entered mgr
        (homes m ++ home entry ∷ [])
        (SameRoles-trans (indexed mgr inserted.1.0) kept.0, kept.1 ∙ grown)
        (indexed mgr inserted.1.0, grown) in
    record {
      roles = both.0;
      places = inr (
        home entry,
        (
          homes-index_entry_put i _ ∙ both.1,
          λ on. (
            (backend.id, (is_memory backend.kind, has_flag backend.flags flag_ephemeral_only)),
            (ap kind_of there, scan_flag _ on),
          ),
        ),
      );
    }
  where
    choose :
        (b : Bool) (x y : Scanned) (mgr : Manager) (hs : List Home)
        → SameRoles mgr x.1.0 × (homes x.1.1 ≡ hs)
        → SameRoles mgr y.1.0 × (homes y.1.1 ≡ hs)
        → SameRoles mgr (if b then x else y).1.0 × (homes (if b then x else y).1.1 ≡ hs)
    choose true x y mgr hs h k = h
    choose false x y mgr hs h k = k

either :
    (b : Bool) (x s : Scanned)
    → Keeps s.1.0 x.1.0 s.1.1 x.1.1
    → Keeps s.1.0 (if b then s else x).1.0 s.1.1 (if b then s else x).1.1
either true x s k = Steps-Keeps (stays (SameRoles-self s.1.0) refl)
either false x s k = k

mutual
  unfolding scan_node scan_dir backend_manager_get_backend

  scan_node-Keeps :
      (id : ℕ) (path : List ℕ) (node : Node) (s : Scanned)
      → Keeps s.1.0 (scan_node id path node s).1.0 s.1.1 (scan_node id path node s).1.1
  scan_node-Keeps id path (file size) s =
      Steps-Keeps (scan_file-Steps id size path (get_elem? s.1.0.backends id) s refl)
  scan_node-Keeps id path (directory listing) s = scan_dir-Keeps id path listing s
  scan_node-Keeps id path other s = Steps-Keeps (stays (SameRoles-self s.1.0) refl)

  scan_dir-Keeps :
      (id : ℕ) (path : List ℕ) (listing : Listing) (s : Scanned)
      → Keeps s.1.0 (scan_dir id path listing s).1.0 s.1.1 (scan_dir id path listing s).1.1
  scan_dir-Keeps id path end s = Steps-Keeps (stays (SameRoles-self s.1.0) refl)
  scan_dir-Keeps id path (item d_name node rest) s =
      let here =
        either (is_dot d_name) (scan_node id (path_in path d_name) node s) s
          (scan_node-Keeps id (path_in path d_name) node s) in
      Keeps-trans here (
        scan_dir-Keeps id path rest
          (if is_dot d_name then s else scan_node id (path_in path d_name) node s))

scan_backend-Keeps :
    (o : Option BackendInfo) (id : ℕ) (listing : Listing) (mgr : Manager) (m : Memory)
    → Keeps mgr (scan_backend o id listing mgr m).1.0 m (scan_backend o id listing mgr m).1.1
unfolding scan_backend
scan_backend-Keeps none id listing mgr m = Steps-Keeps (stays (SameRoles-self mgr) refl)
scan_backend-Keeps (some backend) id listing mgr m =
    pick (has_flag backend.flags flag_enabled) _ _
      (scan_dir-Keeps id backend.mount_path listing (0, (mgr, m)))
  where
    pick :
        (b : Bool) (x : Option ℕ × (Manager × Memory)) (count : Option ℕ)
        → Keeps mgr x.1.0 m x.1.1
        → Keeps mgr
            (if b then x else (count, (mgr, m))).1.0
            m
            (if b then x else (count, (mgr, m))).1.1
    pick true x count k = k
    pick false x count k = Steps-Keeps (stays (SameRoles-self mgr) refl)

pub backend_manager_scan-Keeps :
    (id : Option ℕ) (listing : Listing) (mgr : Manager) (m : Memory)
    → Keeps mgr
        (backend_manager_scan id listing mgr m).1.0
        m
        (backend_manager_scan id listing mgr m).1.1
unfolding backend_manager_scan
backend_manager_scan-Keeps none listing mgr m = Steps-Keeps (stays (SameRoles-self mgr) refl)
backend_manager_scan-Keeps (some id) listing mgr m =
    scan_backend-Keeps (backend_manager_get_backend mgr (some id)) id listing mgr m
