-- ===== src/Backend/Migration/Homes.antt =====
-- Where the entries are while an object is migrated.
use objmapper.Base.{
  ℕ, zero, suc, ◌≡◌, refl, sym, ap, ◌∙◌, inl, inr, Bool, true, false, Option, none, some, List, [],
  ◌∷◌, ◌≢◌, subst, arith, get_elem?, ◌==◌, ==_iff, Bool-cases, if◌then◌else◌,
}
use objmapper.Index.Entry.{
  Entry, Memory, FdRef, open_rdonly, call, increment, update_entry, store_fd, open_entry,
  index_entry_open_fd, hold_fd, acquire_entry, fd_ref_acquire, fd_ref_release,
}
use objmapper.Index.Entry.Balance.{update_entry_at, update_entry_other}
use objmapper.Index.Tables.{GlobalIndex, path_of, global_index_lookup}
use objmapper.Index.Removal.{
  renew_fd, moved_to, fd_of, update_at, update_found, global_index_update_backend,
}
use objmapper.Backend.Homes.{
  Home, home, homes, homes_of, homes-update_entry, homes-fd_ref_release, homes-global_index_lookup,
}

homes-store_fd : (opened : Option ℕ) (i : ℕ) (m : Memory) → homes (store_fd opened i m).1 ≡ homes m
unfolding store_fd
homes-store_fd none i m = refl
homes-store_fd (some fd) i m = homes-update_entry i (λ e. record e { fd = some fd }) m (λ e. refl)

homes-open_entry :
    (o : Option Entry) (opened : Option ℕ) (i : ℕ) (m : Memory)
    → homes (open_entry o opened i m).1 ≡ homes m
unfolding open_entry
homes-open_entry none opened i m = refl
homes-open_entry (some e) opened i m = on e.fd
  where
    on :
        (fd : Option ℕ)
        → (let tried : Bool × Memory = elim fd [
          | some fd ↦ (true, m)
          | none ↦ store_fd opened i (call (open_rdonly e.backend_path) m)
        ] in
            homes tried.1 ≡ homes m)
    on none = homes-store_fd opened i (call (open_rdonly e.backend_path) m)
    on (some fd) = refl

homes-hold_fd : (i : ℕ) (ref : FdRef) (m : Memory) → homes (hold_fd i ref m).1.1 ≡ homes m
unfolding hold_fd
homes-hold_fd i ref m = on (get_elem? m.entries i)
  where
    on :
        (o : Option Entry)
        → (let held : Option ℕ × (FdRef × Memory) = elim o [
          | none ↦ (none, (ref, m))
          | some entry ↦ (
            entry.fd,
            (
              record ref { fd = entry.fd; generation = entry.fd_generation },
              update_entry i (λ e. record e { fd_refcount = increment e.fd_refcount }) m,
            ),
          )
        ] in
            homes held.1.1 ≡ homes m)
    on none = refl
    on (some e) =
        homes-update_entry i (λ e. record e { fd_refcount = increment e.fd_refcount }) m (λ e. refl)

homes-acquire_entry :
    (o opened : Option ℕ) (ref : FdRef) (m : Memory)
    → homes (acquire_entry o opened ref m).1.1 ≡ homes m
unfolding acquire_entry index_entry_open_fd
homes-acquire_entry none opened ref m = refl
homes-acquire_entry (some i) opened ref m =
    let tried = open_entry (get_elem? m.entries i) opened i m in
    pick tried.1 tried.0 (hold_fd i ref tried.1) (none, (ref, tried.1))
      (homes-hold_fd i ref tried.1) refl
    ∙ homes-open_entry (get_elem? m.entries i) opened i m
  where
    pick :
        (n : Memory) (b : Bool) (x y : Option ℕ × (FdRef × Memory))
        → homes x.1.1 ≡ homes n
        → homes y.1.1 ≡ homes n
        → homes (if b then x else y).1.1 ≡ homes n
    pick n true x y h k = h
    pick n false x y h k = k

pub homes-fd_ref_acquire :
    (opened : Option ℕ) (ref : FdRef) (m : Memory)
    → homes (fd_ref_acquire opened ref m).1.1 ≡ homes m
unfolding fd_ref_acquire
homes-fd_ref_acquire opened ref m = homes-acquire_entry ref.entry opened ref m

abbrev pub place : Option Entry → Option Home
place none = none
place (some e) = some (home e)

pub homes-place : (es : List Entry) (i : ℕ) → get_elem? (homes_of es) i ≡ place (get_elem? es i)
unfolding homes_of
homes-place [] i = refl
homes-place (e ∷ es) zero = refl
homes-place (e ∷ es) (suc i) = homes-place es i

-- The entry is there, with this home.
abbrev pub IsAt : Memory → ℕ → Home → Type 0
IsAt m i h = place (get_elem? m.entries i) ≡ some h

pub homes-IsAt : (m m' : Memory) (i : ℕ) (h : Home) → homes m' ≡ homes m → IsAt m i h → IsAt m' i h
homes-IsAt m m' i h same at =
    sym (homes-place m'.entries i) ∙ ap (λ hs. get_elem? hs i) same ∙ homes-place m.entries i ∙ at

path_of-place : (o : Option Entry) (h : Home) → place o ≡ some h → path_of o ≡ h.1.1
path_of-place none h e = cc
path_of-place (some x) h e = ap {B = List ℕ} (λ o. elim o [ none ↦ [] | some k ↦ k.1.1 ]) e

pub path_of-IsAt :
    (m : Memory) (i : ℕ) (h : Home) → IsAt m i h → path_of (get_elem? m.entries i) ≡ h.1.1
path_of-IsAt m i h at = path_of-place (get_elem? m.entries i) h at

-- An entry that is moved keeps its flags.
move-place :
    (o : Option Entry) (h : Home) (id : ℕ) (path : List ℕ)
    → place o ≡ some h
    → (e : Entry) × ((o ≡ some e) × (home (moved_to id path e) ≡ (h.0, (id, path))))
move-place none h id path e = cc
move-place (some x) h id path e = (
  x,
  (refl, ap {B = Home} (λ o. elim o [ none ↦ (0, (id, path)) | some k ↦ (k.0, (id, path)) ]) e),
)

-- An entry that is moved is at its new place, if it is there.
pub moved-IsAt :
    (i id : ℕ) (path : List ℕ) (h : Home) (m : Memory)
    → IsAt m i h
    → IsAt (update_entry i (moved_to id path) m) i (h.0, (id, path))
moved-IsAt i id path h m there =
    let found = move-place (get_elem? m.entries i) h id path there in
    ap place (update_entry_at i (moved_to id path) m found.0 found.1.0) ∙ ap some found.1.1

-- An entry that is moved to the same place changes nothing there.
moved_again-IsAt :
    (i j id flags : ℕ) (path : List ℕ) (m : Memory)
    → IsAt m i (flags, (id, path))
    → IsAt (update_entry j (moved_to id path) m) i (flags, (id, path))
moved_again-IsAt i j id flags path m at = elim (Bool-cases (j == i)) [
  | inl same ↦
      subst (λ k. IsAt (update_entry k (moved_to id path) m) i (flags, (id, path)))
        (sym ((==_iff j i).0 same)) (moved-IsAt i id path (flags, (id, path)) m at)
  | inr differ ↦
      let ne : j ≢ i = ground arith in
      ap place (update_entry_other j i (moved_to id path) m ne) ∙ at
]

renew_fd-homes : (fd : Option ℕ) (i : ℕ) (m : Memory) → homes (renew_fd fd i m) ≡ homes m
unfolding renew_fd
renew_fd-homes none i m = refl
renew_fd-homes (some fd) i m =
    homes-update_entry i (λ e. record e { fd = none; fd_generation = increment e.fd_generation }) m
      (λ e. refl)

update_at-IsAt :
    (o : Option ℕ) (ref : FdRef) (id i flags : ℕ) (path : List ℕ) (idx : GlobalIndex) (m : Memory)
    → IsAt m i (flags, (id, path))
    → IsAt (update_at o ref id path idx m).1 i (flags, (id, path))
unfolding update_at
update_at-IsAt none ref id i flags path idx m at = at
update_at-IsAt (some j) ref id i flags path idx m at =
    let renewed = renew_fd (fd_of (get_elem? m.entries j)) j m in
    let changed : Memory = update_entry j (moved_to id path) renewed in
    homes-IsAt changed (fd_ref_release ref changed).1 i (flags, (id, path))
      (homes-fd_ref_release ref changed)
      (moved_again-IsAt i j id flags path renewed (
        homes-IsAt m renewed i (flags, (id, path))
          (renew_fd-homes (fd_of (get_elem? m.entries j)) j m) at))

update_found-IsAt :
    (o : Option FdRef) (id i flags : ℕ) (path : List ℕ) (idx : GlobalIndex) (m : Memory)
    → IsAt m i (flags, (id, path))
    → IsAt (update_found o id path idx m).1.1 i (flags, (id, path))
unfolding update_found
update_found-IsAt none id i flags path idx m at = at
update_found-IsAt (some ref) id i flags path idx m at =
    update_at-IsAt ref.entry ref id i flags path idx m at

pub global_index_update_backend-IsAt :
    (rdwr rdonly : Option ℕ) (now : ℕ) (uri : List ℕ) (id i flags : ℕ) (path : List ℕ)
    (idx : GlobalIndex) (m : Memory)
    → IsAt m i (flags, (id, path))
    → IsAt (global_index_update_backend rdwr rdonly now uri id path idx m).1.1 i (flags, (id, path))
unfolding global_index_update_backend
global_index_update_backend-IsAt rdwr rdonly now uri id i flags path idx m at =
    let looked = global_index_lookup rdwr rdonly now uri idx m in
    update_found-IsAt looked.0 id i flags path looked.1.0 looked.1.1 (
      homes-IsAt m looked.1.1 i (flags, (id, path))
        (homes-global_index_lookup rdwr rdonly now uri idx m) at)
