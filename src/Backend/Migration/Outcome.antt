-- ===== src/Backend/Migration/Outcome.antt =====
-- What a migration leaves behind.
use objmapper.Base.{
  ℕ, ◌≡◌, refl, sym, ap, ◌∙◌, inl, inr, Bool, true, false, not, ◌&&◌, Option, none, some, List,
  get_elem?, if◌then◌else◌,
}
use objmapper.Index.Entry.{
  Entry, Memory, FdRef, open_create, call, fd_ref_release, index_hash_string,
}
use objmapper.Index.Tables.{
  GlobalIndex, Walk, found, missing, stuck, search, refer, look_up, global_index_lookup,
}
use objmapper.Backend.Types.{BackendInfo, Manager, Opened}
use objmapper.Backend.Registry.{backend_manager_get_backend}
use objmapper.Backend.Objects.{object_path, find}
use objmapper.Backend.Homes.{home, homes, homes-fd_ref_release, homes-global_index_lookup}
use objmapper.Backend.Migration.{
  MigrateAnswers, is_safe, may_migrate, migrate_between, is_target, migrate_entry, migrate_at,
  migrate_found, backend_migrate_object,
}
use objmapper.Backend.Migration.Homes.{place, homes-place}
use objmapper.Backend.Migration.Ends.{Ends, refused, open_target-Ends}

choose :
    {origin target : Option ℕ} {uri : List ℕ} {mgr : Manager} {m : Memory} (b : Bool)
    (x y : Bool × (Manager × Memory))
    → (b ≡ true → Ends origin target uri mgr m x)
    → Ends origin target uri mgr m y
    → Ends origin target uri mgr m (if b then x else y)
choose true x y h k = h refl
choose false x y h k = k

migrate_between-Ends :
    (target : Option ℕ) (s o : Option BackendInfo) (answers : MigrateAnswers) (uri : List ℕ) (i : ℕ)
    (entry : Entry) (ref : FdRef) (mgr : Manager) (m : Memory)
    → get_elem? (homes m) i ≡ some (home entry)
    → backend_manager_get_backend mgr target ≡ o
    → is_safe entry o ≡ true
    → Ends (some i) target uri mgr m (migrate_between s o answers uri i entry ref mgr m)
unfolding migrate_between
migrate_between-Ends target none o answers uri i entry ref mgr m there at_target safe =
    refused mgr m (fd_ref_release ref m).1 (homes-fd_ref_release ref m)
migrate_between-Ends target (some src) none answers uri i entry ref mgr m there at_target safe =
    refused mgr m (fd_ref_release ref m).1 (homes-fd_ref_release ref m)
migrate_between-Ends target (some src) (some dst) answers uri i entry ref mgr m there at_target
      safe =
    let dst_path = object_path dst.mount_path uri in
    choose (may_migrate src dst) _ _
      (λ on.
        open_target-Ends target answers uri i entry src dst mgr m there at_target safe answers.dst
          ref (call (open_create dst_path) m) refl)
      (refused mgr m (fd_ref_release ref m).1 (homes-fd_ref_release ref m))

and-right : (a b : Bool) → (a && b) ≡ true → b ≡ true
and-right true b h = h
and-right false b h = cc

migrate_entry-Ends :
    (o : Option Entry) (answers : MigrateAnswers) (uri : List ℕ) (target : Option ℕ) (i : ℕ)
    (ref : FdRef) (mgr : Manager) (m : Memory)
    → get_elem? m.entries i ≡ o
    → Ends (some i) target uri mgr m (migrate_entry o answers uri target i ref mgr m)
unfolding migrate_entry
migrate_entry-Ends none answers uri target i ref mgr m there = refused mgr m m refl
migrate_entry-Ends (some entry) answers uri target i ref mgr m there =
    let o = backend_manager_get_backend mgr target in
    choose (not (is_target entry.backend_id target) && is_safe entry o) _ _
      (λ on.
        migrate_between-Ends target (backend_manager_get_backend mgr (some entry.backend_id)) o
          answers uri i entry ref mgr m (homes-place m.entries i ∙ ap place there) refl
          (and-right (not (is_target entry.backend_id target)) _ on))
      (refused mgr m (fd_ref_release ref m).1 (homes-fd_ref_release ref m))

-- The entry of a reference, where there is one.
abbrev origin_of : Option FdRef → Option ℕ
origin_of none = none
origin_of (some ref) = ref.entry

migrate_found-Ends :
    (o : Option FdRef) (answers : MigrateAnswers) (uri : List ℕ) (target : Option ℕ) (mgr : Manager)
    (m : Memory)
    → Ends (origin_of o) target uri mgr m (migrate_found o answers uri target mgr m)
unfolding migrate_found
migrate_found-Ends none answers uri target mgr m = refused mgr m m refl
migrate_found-Ends (some ref) answers uri target mgr m = at ref.entry
  where
    at : (o : Option ℕ) → Ends o target uri mgr m (migrate_at o answers uri target ref mgr m)
    at none = refused mgr m m refl
    at (some i) = migrate_entry-Ends (get_elem? m.entries i) answers uri target i ref mgr m refl

-- A lookup changes no backend.
find_backend :
    (answer : Opened) (uri : List ℕ) (target : Option ℕ) (mgr : Manager) (m : Memory)
    → backend_manager_get_backend mgr target
      ≡ backend_manager_get_backend (find answer uri mgr m).1.0 target
unfolding find backend_manager_get_backend
find_backend answer uri none mgr m = refl
find_backend answer uri (some id) mgr m = refl

-- The entry that a search finds.
abbrev pub found_in : Walk → Option ℕ
found_in (found i) = some i
found_in missing = none
found_in stuck = none

look_up_origin :
    (w : Walk) (rdwr rdonly : Option ℕ) (now : ℕ) (idx : GlobalIndex) (m : Memory)
    → origin_of (look_up w rdwr rdonly now idx m).0 ≡ found_in w
unfolding look_up refer
look_up_origin (found i) rdwr rdonly now idx m = refl
look_up_origin missing rdwr rdonly now idx m = refl
look_up_origin stuck rdwr rdonly now idx m = refl

find_origin :
    (answer : Opened) (uri : List ℕ) (mgr : Manager) (m : Memory)
    → origin_of (find answer uri mgr m).0
      ≡ found_in (
          search m mgr.global_index.buckets mgr.global_index.num_buckets
            (index_hash_string uri)
            uri)
unfolding find global_index_lookup
find_origin answer uri mgr m = look_up_origin _ answer.rdwr answer.rdonly answer.now _ m

-- A migration ends in one of two ways, whatever the kernel answers. If it returns -1, the list of
-- backends and the flags, backends and paths of all entries are as before. If it returns 0, a search
-- for the URI found the entry that is moved: it now stands on the target backend, at the path that
-- the mount path and the URI give there, with the flags that it had; it is ephemeral only if the
-- target backend is for ephemeral objects; and the last call unlinks that path, which is the new
-- file.
pub backend_migrate_object-Ends :
    (answers : MigrateAnswers) (uri : List ℕ) (target : Option ℕ) (mgr : Manager) (m : Memory)
    → Ends
        (found_in (
          search m mgr.global_index.buckets mgr.global_index.num_buckets
            (index_hash_string uri)
            uri))
        target
        uri
        mgr
        m
        (backend_migrate_object answers uri target mgr m)
unfolding backend_migrate_object find
backend_migrate_object-Ends answers uri target mgr m =
    let looked = find answers.found uri mgr m in
    let same : homes looked.1.1 ≡ homes m =
      homes-global_index_lookup answers.found.rdwr answers.found.rdonly answers.found.now uri
        mgr.global_index m in
    elim (migrate_found-Ends looked.0 answers uri target looked.1.0 looked.1.1) [
      | inl stay ↦
          inl (record { failed = stay.failed; backends = stay.backends; still = stay.still ∙ same })
      | inr go ↦ inr (record {
        success = go.success;
        dst = go.dst;
        at_target = find_backend answers.found uri target mgr m ∙ go.at_target;
        lost = go.lost;
        address = go.address;
        origin_at = sym (find_origin answers.found uri mgr m) ∙ go.origin_at;
        moved = go.moved;
        stood = ap (λ hs. get_elem? hs go.address) (sym same) ∙ go.stood;
        stands = go.stands;
        safe = go.safe;
      })
    ]
