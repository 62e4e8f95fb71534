-- ===== src/Backend/Migration/Ends.antt =====
-- The two ends of a migration, and how the copy of the file comes to them.
use objmapper.Base.{
  ℕ, ◌≡◌, ◌⊎◌, refl, sym, ap, ◌∙◌, inl, inr, Bool, true, false, not, ◌||◌, Option, none, some, List,
  ◌∷◌, get_elem?, ◌==◌, if◌then◌else◌,
}
use objmapper.Index.Entry.{
  Entry, Memory, FdRef, Call, unlink, close, sendfile, call, update_entry, fd_ref_acquire,
  fd_ref_release,
}
use objmapper.Index.Tables.{backend_index_insert}
use objmapper.Index.Removal.{backend_index_remove, global_index_update_backend, moved_to}
use objmapper.Backend.Types.{
  BackendInfo, Manager, has_flag, flag_ephemeral_only, index_flag_ephemeral,
}
use objmapper.Backend.Registry.{backend_manager_get_backend}
use objmapper.Backend.Objects.{object_path}
use objmapper.Backend.Homes.{
  Home, home, homes, homes-fd_ref_release, homes-backend_index_insert, homes-backend_index_remove,
}
use objmapper.Backend.Migration.{
  MigrateAnswers, is_safe, commit_move, finish_copy, copy_file, open_target,
}
use objmapper.Backend.Migration.Homes.{
  homes-place, IsAt, homes-IsAt, path_of-IsAt, moved-IsAt, global_index_update_backend-IsAt,
  homes-fd_ref_acquire,
}

-- The migration failed: the backends and the places of all entries are as before.
pub record IsRefused (mgr : Manager) (m : Memory) (r : Bool × (Manager × Memory)) : Type 0 where
  pub failed : r.0 ≡ false
  pub backends : r.1.0.backends ≡ mgr.backends
  pub still : homes r.1.1 ≡ homes m

-- The migration succeeded: the entry that was found is on the target backend, at its path there, with
-- its flags, and the last call unlinks that path.
pub record IsMoved (origin target : Option ℕ) (uri : List ℕ) (mgr : Manager) (m : Memory)
    (r : Bool × (Manager × Memory)) : Type 0 where
  pub success : r.0 ≡ true
  pub dst : BackendInfo
  pub at_target : backend_manager_get_backend mgr target ≡ some dst
  pub lost : (calls : List Call) × (r.1.1.calls ≡ unlink (object_path dst.mount_path uri) ∷ calls)
  pub address : ℕ
  pub origin_at : origin ≡ some address
  pub moved : Home
  pub stood : get_elem? (homes m) address ≡ some moved
  pub stands :
      get_elem? (homes r.1.1) address ≡ some (moved.0, (dst.id, object_path dst.mount_path uri))
  pub safe :
      has_flag moved.0 index_flag_ephemeral ≡ true → has_flag dst.flags flag_ephemeral_only ≡ true

abbrev pub Ends :
    Option ℕ → Option ℕ → List ℕ → Manager → Memory → Bool × (Manager × Memory) → Type 0
Ends origin target uri mgr m r = IsRefused mgr m r ⊎ IsMoved origin target uri mgr m r

pub refused :
    {origin target : Option ℕ} {uri : List ℕ} (mgr : Manager) (m n : Memory)
    → homes n ≡ homes m
    → Ends origin target uri mgr m (false, (mgr, n))
refused mgr m n same = inl (record { failed = refl; backends = refl; still = same })

module _ (target : Option ℕ) (answers : MigrateAnswers) (uri : List ℕ) (i : ℕ) (entry : Entry)
    (src dst : BackendInfo) (mgr : Manager) (m : Memory)
    (there : get_elem? (homes m) i ≡ some (home entry))
    (at_target : backend_manager_get_backend mgr target ≡ some dst)
    (safe : is_safe entry (some dst) ≡ true) where
  abbrev path : List ℕ
  path = object_path dst.mount_path uri

  -- Before the last call the entry is at its new place.
  placed : Home
  placed = (entry.flags, (dst.id, path))

  lost_file :
      (size : ℕ) (n : Memory)
      → homes n ≡ homes m
      → ((calls : List Call) × ((commit_move answers uri i size path src dst mgr n).1.calls
            ≡ unlink path ∷ calls))
        × IsAt (commit_move answers uri i size path src dst mgr n).1 i placed
  unfolding commit_move placed
  lost_file size n same =
      let from_src = backend_index_remove uri src.index n in
      let changed : Memory = update_entry i (moved_to dst.id path) from_src.1.1 in
      let updated =
        global_index_update_backend answers.again.rdwr answers.again.rdonly answers.again.now uri
          dst.id path mgr.global_index changed in
      let into_dst = backend_index_insert i dst.index updated.1.1 in
      let at : IsAt into_dst.1 i placed =
        homes-IsAt updated.1.1 into_dst.1 i placed
          (homes-backend_index_insert i dst.index updated.1.1)
          (global_index_update_backend-IsAt answers.again.rdwr answers.again.rdonly
            answers.again.now uri dst.id i entry.flags path mgr.global_index changed
            (moved-IsAt i dst.id path (home entry) from_src.1.1 (
              sym (homes-place from_src.1.1.entries i)
              ∙ ap (λ hs. get_elem? hs i) (homes-backend_index_remove uri src.index n ∙ same)
              ∙ there))) in
      (
        (
          into_dst.1.calls,
          ap (λ p. unlink p ∷ into_dst.1.calls) (path_of-IsAt into_dst.1 i placed at),
        ),
        at,
      )

  unsafe_only :
      has_flag entry.flags index_flag_ephemeral ≡ true
      → has_flag dst.flags flag_ephemeral_only ≡ true
  unfolding is_safe
  unsafe_only on = only (has_flag entry.flags index_flag_ephemeral) _ on safe
    where
      only : (a b : Bool) → a ≡ true → (not a || b) ≡ true → b ≡ true
      only true b h k = k
      only false b h k = cc

  finish_copy-Ends :
      (dst_fd : ℕ) (ref : FdRef) (n : Memory)
      → homes n ≡ homes m
      → Ends
          (some i)
          target
          uri
          mgr
          m
          (finish_copy answers uri i entry path dst_fd ref src dst mgr n)
  unfolding finish_copy placed
  finish_copy-Ends dst_fd ref n same =
      let closed : Memory = call (close dst_fd) (fd_ref_release ref n).1 in
      let still : homes closed ≡ homes m = homes-fd_ref_release ref n ∙ same in
      pick (answers.copied == entry.size_bytes) _ _
        (inr (record {
          success = refl;
          dst = dst;
          at_target = at_target;
          lost = (lost_file entry.size_bytes closed still).0;
          address = i;
          origin_at = refl;
          moved = home entry;
          stood = there;
          stands =
              homes-place
                (commit_move answers uri i entry.size_bytes path src dst mgr closed).1.entries i
              ∙ (lost_file entry.size_bytes closed still).1;
          safe = unsafe_only;
        }))
        (refused mgr m (call (unlink path) closed) still)
    where
      pick :
          (b : Bool) (x y : Bool × (Manager × Memory))
          → Ends (some i) target uri mgr m x
          → Ends (some i) target uri mgr m y
          → Ends (some i) target uri mgr m (if b then x else y)
      pick true x y h k = h
      pick false x y h k = k

  copy_file-Ends :
      (o : Option ℕ) (dst_fd : ℕ) (ref : FdRef) (n : Memory)
      → homes n ≡ homes m
      → Ends
          (some i)
          target
          uri
          mgr
          m
          (copy_file o answers uri i entry path dst_fd ref src dst mgr n)
  unfolding copy_file
  copy_file-Ends none dst_fd ref n same =
      let dropped : Memory = call (unlink path) (call (close dst_fd) n) in
      refused mgr m (fd_ref_release ref dropped).1 (homes-fd_ref_release ref dropped ∙ same)
  copy_file-Ends (some fd) dst_fd ref n same =
      finish_copy-Ends dst_fd ref (call (sendfile dst_fd fd entry.size_bytes) n) same

  pub open_target-Ends :
      (o : Option ℕ) (ref : FdRef) (n : Memory)
      → homes n ≡ homes m
      → Ends (some i) target uri mgr m (open_target o answers uri i entry path ref src dst mgr n)
  unfolding open_target
  open_target-Ends none ref n same =
      refused mgr m (fd_ref_release ref n).1 (homes-fd_ref_release ref n ∙ same)
  open_target-Ends (some dst_fd) ref n same =
      let acquired = fd_ref_acquire answers.src ref n in
      copy_file-Ends acquired.0 dst_fd acquired.1.0 acquired.1.1
        (homes-fd_ref_acquire answers.src ref n ∙ same)
