-- ===== src/Backend/Confinement/Calls.antt =====
-- Every operation on objects, migration apart, keeps ephemeral objects on backends for them.
use objmapper.Base.{ℕ, ◌≡◌, refl, ◌∙◌, Bool, Option, none, some, List, [], ◌∷◌, get_elem?}
use objmapper.Index.Entry.{Entry, Memory, FdRef, unlink, call, fd_ref_release, update_entry}
use objmapper.Index.Removal.{backend_index_remove, global_index_remove}
use objmapper.Backend.Types.{BackendInfo, Manager, CreateReq, Opened}
use objmapper.Backend.Registry.{backend_manager_get_backend, update_backend}
use objmapper.Backend.Registry.Roles.{
  HasRoles, SameRoles, SameRoles-self, SameRoles-trans, SameRoles-update_backend,
  SameRoles-HasRoles,
}
use objmapper.Backend.Objects.{
  backend_create_object, entry_of, find, count_read, record_access, get_found, backend_get_object,
  uncount, delete_from, delete_entry, delete_found, backend_delete_object, read_metadata,
  backend_get_metadata, resized, resize_on, resize_entry, resize_at, resize_found,
  backend_update_size,
}
use objmapper.Backend.Objects.Scan.{Listing, backend_manager_scan}
use objmapper.Backend.Homes.{
  homes, homes-update_entry, homes-index_entry_record_access, homes-fd_ref_release,
  homes-global_index_lookup, homes-global_index_remove, homes-backend_index_remove,
}
use objmapper.Backend.Confinement.{IsConfined, stays}
use objmapper.Backend.Confinement.Creation.{
  with_fields, indexed, IsHonest, backend_create_object-Steps,
}
use objmapper.Backend.Confinement.Scan.{Keeps, Steps-Keeps, Keeps-trans, backend_manager_scan-Keeps}

-- Nothing of the backends' kinds and of the homes changes.
pub record Same (mgr mgr' : Manager) (m m' : Memory) : Type 0 where
  pub roles : SameRoles mgr mgr'
  pub still : homes m' ≡ homes m

pub Same-trans : {a b c : Manager} {l m n : Memory} → Same a b l m → Same b c m n → Same a c l n
Same-trans r s = record { roles = SameRoles-trans r.roles s.roles; still = s.still ∙ r.still }

pub Same-Keeps : {mgr mgr' : Manager} {m m' : Memory} → Same mgr mgr' m m' → Keeps mgr mgr' m m'
Same-Keeps s = Steps-Keeps (stays s.roles s.still)

pub released : (ref : FdRef) (mgr : Manager) (m : Memory) → Same mgr mgr m (fd_ref_release ref m).1
released ref mgr m = record { roles = SameRoles-self mgr; still = homes-fd_ref_release ref m }

find-Same :
    (answer : Opened) (uri : List ℕ) (mgr : Manager) (m : Memory)
    → Same mgr (find answer uri mgr m).1.0 m (find answer uri mgr m).1.1
unfolding find
find-Same answer uri mgr m = record {
  roles = indexed mgr _;
  still = homes-global_index_lookup answer.rdwr answer.rdonly answer.now uri mgr.global_index m;
}

count_read-SameRoles : (o : Option Entry) (mgr : Manager) → SameRoles mgr (count_read o mgr)
count_read-SameRoles none mgr = SameRoles-self mgr
count_read-SameRoles (some e) mgr = SameRoles-update_backend e.backend_id _ mgr (λ b. refl)

record_access-homes :
    (o : Option ℕ) (now : ℕ) (m : Memory) → homes (record_access o now m) ≡ homes m
record_access-homes none now m = refl
record_access-homes (some i) now m = homes-index_entry_record_access now i m

get_found-Same :
    (o : Option FdRef) (later : ℕ) (mgr : Manager) (m : Memory)
    → Same mgr (get_found o later mgr m).1.0 m (get_found o later mgr m).1.1
unfolding get_found
get_found-Same none later mgr m = record { roles = SameRoles-self mgr; still = refl }
get_found-Same (some ref) later mgr m = record {
  roles = count_read-SameRoles (entry_of ref m) mgr;
  still = record_access-homes ref.entry later m;
}

delete_from-Same :
    (o : Option BackendInfo) (ref : FdRef) (entry : Entry) (uri : List ℕ) (mgr : Manager)
    (m : Memory)
    → Same mgr (delete_from o ref entry uri mgr m).1.0 m (delete_from o ref entry uri mgr m).1.1
unfolding delete_from
delete_from-Same none ref entry uri mgr m = released ref mgr m
delete_from-Same (some backend) ref entry uri mgr m =
    let unlinked : Memory = call (unlink entry.backend_path) m in
    let from_backend = backend_index_remove uri backend.index unlinked in
    let from_global = global_index_remove uri mgr.global_index from_backend.1.1 in
    record {
      roles =
          with_fields mgr
            (update_backend entry.backend_id
              (λ b. record (uncount entry.size_bytes b) { index = from_backend.1.0 }) mgr)
            _ (SameRoles-update_backend entry.backend_id _ mgr (λ b. refl)) refl refl refl refl
            refl;
      still =
          homes-fd_ref_release ref from_global.1.1
          ∙ homes-global_index_remove uri mgr.global_index from_backend.1.1
          ∙ homes-backend_index_remove uri backend.index unlinked;
    }

delete_entry-Same :
    (o : Option Entry) (ref : FdRef) (uri : List ℕ) (mgr : Manager) (m : Memory)
    → Same mgr (delete_entry o ref uri mgr m).1.0 m (delete_entry o ref uri mgr m).1.1
unfolding delete_entry
delete_entry-Same none ref uri mgr m = record { roles = SameRoles-self mgr; still = refl }
delete_entry-Same (some entry) ref uri mgr m =
    delete_from-Same (backend_manager_get_backend mgr (some entry.backend_id)) ref entry uri mgr m

delete_found-Same :
    (o : Option FdRef) (uri : List ℕ) (mgr : Manager) (m : Memory)
    → Same mgr (delete_found o uri mgr m).1.0 m (delete_found o uri mgr m).1.1
unfolding delete_found
delete_found-Same none uri mgr m = record { roles = SameRoles-self mgr; still = refl }
delete_found-Same (some ref) uri mgr m = delete_entry-Same (entry_of ref m) ref uri mgr m

read_metadata-Same :
    (o : Option FdRef) (mgr : Manager) (m : Memory)
    → Same mgr (read_metadata o mgr m).1.0 m (read_metadata o mgr m).1.1
unfolding read_metadata
read_metadata-Same none mgr m = record { roles = SameRoles-self mgr; still = refl }
read_metadata-Same (some ref) mgr m = released ref mgr m

resize_on-Same :
    (o : Option BackendInfo) (ref : FdRef) (i : ℕ) (entry : Entry) (size : ℕ) (mgr : Manager)
    (m : Memory)
    → Same mgr (resize_on o ref i entry size mgr m).1.0 m (resize_on o ref i entry size mgr m).1.1
unfolding resize_on
resize_on-Same none ref i entry size mgr m = released ref mgr m
resize_on-Same (some backend) ref i entry size mgr m = record {
  roles =
      with_fields mgr
        (update_backend entry.backend_id
          (λ b. record b { used_bytes = resized entry.size_bytes size b.used_bytes }) mgr)
        _ (SameRoles-update_backend entry.backend_id _ mgr (λ b. refl)) refl refl refl refl refl;
  still =
      homes-fd_ref_release ref (update_entry i (λ e. record e { size_bytes = size }) m)
      ∙ homes-update_entry i (λ e. record e { size_bytes = size }) m (λ e. refl);
}

resize_entry-Same :
    (o : Option Entry) (ref : FdRef) (i size : ℕ) (mgr : Manager) (m : Memory)
    → Same mgr (resize_entry o ref i size mgr m).1.0 m (resize_entry o ref i size mgr m).1.1
unfolding resize_entry
resize_entry-Same none ref i size mgr m = record { roles = SameRoles-self mgr; still = refl }
resize_entry-Same (some e) ref i size mgr m =
    resize_on-Same (backend_manager_get_backend mgr (some e.backend_id)) ref i e size mgr m

resize_found-Same :
    (o : Option FdRef) (size : ℕ) (mgr : Manager) (m : Memory)
    → Same mgr (resize_found o size mgr m).1.0 m (resize_found o size mgr m).1.1
unfolding resize_found
resize_found-Same none size mgr m = record { roles = SameRoles-self mgr; still = refl }
resize_found-Same (some ref) size mgr m = at ref.entry
  where
    at :
        (o : Option ℕ)
        → Same mgr (resize_at o ref size mgr m).1.0 m (resize_at o ref size mgr m).1.1
    at none = record { roles = SameRoles-self mgr; still = refl }
    at (some i) = resize_entry-Same (get_elem? m.entries i) ref i size mgr m

-- The operations on objects, with what the kernel answers.
pub data ObjectCall : Type 0 where
  create : (List ℕ → Bool) → Option ℕ → CreateReq → ObjectCall
  get : Opened → ℕ → List ℕ → ObjectCall
  delete metadata : Opened → List ℕ → ObjectCall
  resize : Opened → List ℕ → ℕ → ObjectCall
  scan : Option ℕ → Listing → ObjectCall

abbrev pub run_call : ObjectCall → Manager × Memory → Manager × Memory
run_call (create made opened req) (mgr, m) = (backend_create_object made opened req mgr m).1
run_call (get answer later uri) (mgr, m) = (backend_get_object answer later uri mgr m).1
run_call (delete answer uri) (mgr, m) = (backend_delete_object answer uri mgr m).1
run_call (metadata answer uri) (mgr, m) = (backend_get_metadata answer uri mgr m).1
run_call (resize answer uri size) (mgr, m) = (backend_update_size answer uri size mgr m).1
run_call (scan id listing) (mgr, m) = (backend_manager_scan id listing mgr m).1

unfoldable pub run_calls : List ObjectCall → Manager × Memory → Manager × Memory
run_calls [] s = s
run_calls (c ∷ cs) s = run_calls cs (run_call c s)

-- The requests for new objects are honest.
abbrev pub IsHonestCall : ObjectCall → Type 0
IsHonestCall (create made opened req) = IsHonest req
IsHonestCall (get answer later uri) = Unit
IsHonestCall (delete answer uri) = Unit
IsHonestCall (metadata answer uri) = Unit
IsHonestCall (resize answer uri size) = Unit
IsHonestCall (scan id listing) = Unit

abbrev pub AreHonest : List ObjectCall → Type 0
AreHonest [] = Unit
AreHonest (c ∷ cs) = IsHonestCall c × AreHonest cs

pub run_call-Keeps :
    (c : ObjectCall) (mgr : Manager) (m : Memory)
    → IsHonestCall c
    → Keeps mgr (run_call c (mgr, m)).0 m (run_call c (mgr, m)).1
unfolding backend_get_object backend_delete_object backend_get_metadata backend_update_size
run_call-Keeps (create made opened req) mgr m honest =
    Steps-Keeps (backend_create_object-Steps made opened req mgr m honest)
run_call-Keeps (get answer later uri) mgr m honest =
    Same-Keeps (
      Same-trans (find-Same answer uri mgr m)
        (get_found-Same _ later _ (find answer uri mgr m).1.1))
run_call-Keeps (delete answer uri) mgr m honest = Same-Keeps (
    Same-trans (find-Same answer uri mgr m) (delete_found-Same _ uri _ (find answer uri mgr m).1.1))
run_call-Keeps (metadata answer uri) mgr m honest =
    Same-Keeps
      (Same-trans (find-Same answer uri mgr m) (read_metadata-Same _ _ (find answer uri mgr m).1.1))
run_call-Keeps (resize answer uri size) mgr m honest = Same-Keeps (
    Same-trans (find-Same answer uri mgr m)
      (resize_found-Same _ size _ (find answer uri mgr m).1.1))
run_call-Keeps (scan id listing) mgr m honest = backend_manager_scan-Keeps id listing mgr m

run_calls-Keeps :
    (cs : List ObjectCall) (mgr : Manager) (m : Memory)
    → AreHonest cs
    → Keeps mgr (run_calls cs (mgr, m)).0 m (run_calls cs (mgr, m)).1
unfolding run_calls
run_calls-Keeps [] mgr m honest = Same-Keeps (record { roles = SameRoles-self mgr; still = refl })
run_calls-Keeps (c ∷ cs) mgr m honest =
    Keeps-trans (run_call-Keeps c mgr m honest.0)
      (run_calls-Keeps cs (run_call c (mgr, m)).0 (run_call c (mgr, m)).1 honest.1)

-- In any sequence of creations, gets, deletions, metadata reads, size changes and scans, without
-- migrations, whatever the kernel answers: if every entry with the ephemeral flag is on a backend for ephemeral objects
-- at the start, then so it is at the end, and the roles of the backends are kept. A creation has
-- the ephemeral flag in its own flags only where it asks for an ephemeral object.
pub run_calls-IsConfined :
    (cs : List ObjectCall) (mgr : Manager) (m : Memory)
    → AreHonest cs
    → HasRoles mgr
    → IsConfined mgr m
    → HasRoles (run_calls cs (mgr, m)).0
      × IsConfined (run_calls cs (mgr, m)).0 (run_calls cs (mgr, m)).1
run_calls-IsConfined cs mgr m honest roles confined =
    let kept = run_calls-Keeps cs mgr m honest in
    (SameRoles-HasRoles kept.roles roles, kept.confined confined)
