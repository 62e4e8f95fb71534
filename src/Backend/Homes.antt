-- ===== src/Backend/Homes.antt =====
-- Where the entries are: their flags, backends and paths, which only creation and migration change.
use objmapper.Base.{
  ℕ, zero, suc, ◌≡◌, refl, sym, ap, ◌∙◌, Bool, true, false, Option, none, some, List, [], ◌∷◌,
  get_elem?, set, ◌==◌, if◌then◌else◌,
}
use objmapper.Index.Entry.{
  Entry, Memory, FdRef, update_entry, close_if, put_entry, index_entry_get, index_entry_put,
  index_entry_record_access, release_fd, release_entry, fd_ref_release, close, call, decrement,
}
use objmapper.Index.Entry.Balance.{put_down}
use objmapper.Index.Tables.{
  GlobalIndex, BackendIndex, Walk, found, missing, stuck, open_object, count_fd, refer, look_up,
  global_index_lookup, link, insert_unless, insert_entry, global_index_insert, link_entry,
  backend_index_insert,
}
use objmapper.Index.Removal.{
  Located, at_link, nowhere, endless, unlink_entry, drop_fd, global_remove_at, global_index_remove,
  backend_remove_at, backend_index_remove,
}

-- Flags, backend and path.
abbrev pub Home : Type 0
Home = ℕ × (ℕ × List ℕ)

abbrev pub home : Entry → Home
home e = (e.flags, (e.backend_id, e.backend_path))

unfoldable pub homes_of : List Entry → List Home
homes_of [] = []
homes_of (e ∷ es) = home e ∷ homes_of es

abbrev pub homes : Memory → List Home
homes m = homes_of m.entries

homes_of-set :
    (es : List Entry) (i : ℕ) (e e' : Entry)
    → get_elem? es i ≡ some e
    → home e' ≡ home e
    → homes_of (set es i e') ≡ homes_of es
unfolding homes_of
homes_of-set [] i e e' there same = refl
homes_of-set (x ∷ es) zero e e' there same =
    ap (λ h. h ∷ homes_of es)
      (same ∙ ap {B = Home} (λ o. elim o [ none ↦ home x | some y ↦ home y ]) (sym there))
homes_of-set (x ∷ es) (suc i) e e' there same =
    ap (λ hs. home x ∷ hs) (homes_of-set es i e e' there same)

pub homes-update_entry :
    (i : ℕ) (change : Entry → Entry) (m : Memory)
    → ((e : Entry) → home (change e) ≡ home e)
    → homes (update_entry i change m) ≡ homes m
homes-update_entry i change m same = at (get_elem? m.entries i) refl
  where
    at :
        (o : Option Entry)
        → get_elem? m.entries i ≡ o
        → homes_of (elim o [ none ↦ m.entries | some e ↦ set m.entries i (change e) ]) ≡ homes m
    at none e = refl
    at (some e) there = homes_of-set m.entries i e (change e) there (same e)

homes-if :
    (b : Bool) (m n o : Memory)
    → homes m ≡ homes o
    → homes n ≡ homes o
    → homes (if b then m else n) ≡ homes o
homes-if true m n o h k = h
homes-if false m n o h k = k

homes-close_if : (fd : Option ℕ) (m : Memory) → homes (close_if fd m) ≡ homes m
homes-close_if none m = refl
homes-close_if (some fd) m = refl

homes-put_entry : (o : Option Entry) (i : ℕ) (m : Memory) → homes (put_entry o i m) ≡ homes m
unfolding put_entry
homes-put_entry none i m = refl
homes-put_entry (some e) i m =
    let down : Memory = update_entry i put_down m in
    homes-if (e.entry_refcount == 1) _ _ m
      (homes-close_if e.fd _
        ∙ homes-update_entry i (λ e. record e { live = false }) down (λ e. refl)
        ∙ homes-update_entry i _ m (λ e. refl))
      (homes-update_entry i _ m (λ e. refl))

pub homes-index_entry_put : (i : ℕ) (m : Memory) → homes (index_entry_put i m) ≡ homes m
unfolding index_entry_put
homes-index_entry_put i m = homes-put_entry (get_elem? m.entries i) i m

pub homes-index_entry_get : (i : ℕ) (m : Memory) → homes (index_entry_get i m) ≡ homes m
unfolding index_entry_get
homes-index_entry_get i m = homes-update_entry i _ m (λ e. refl)

pub homes-index_entry_record_access :
    (now i : ℕ) (m : Memory) → homes (index_entry_record_access now i m) ≡ homes m
unfolding index_entry_record_access
homes-index_entry_record_access now i m = homes-update_entry i _ m (λ e. refl)

homes-release_fd : (fd : Option ℕ) (i : ℕ) (m : Memory) → homes (release_fd fd i m) ≡ homes m
homes-release_fd none i m = refl
homes-release_fd (some fd) i m =
    homes-update_entry i (λ e. record e { fd_refcount = decrement e.fd_refcount })
      (call (close fd) m) (λ e. refl)

homes-release_entry :
    (o : Option ℕ) (ref : FdRef) (m : Memory) → homes (release_entry o ref m).1 ≡ homes m
unfolding release_entry
homes-release_entry none ref m = refl
homes-release_entry (some i) ref m =
    homes-index_entry_put i (release_fd ref.fd i m) ∙ homes-release_fd ref.fd i m

pub homes-fd_ref_release : (ref : FdRef) (m : Memory) → homes (fd_ref_release ref m).1 ≡ homes m
unfolding fd_ref_release
homes-fd_ref_release ref m = homes-release_entry ref.entry ref m

homes-open_object :
    (rdwr rdonly : Option ℕ) (path : List ℕ) (m : Memory)
    → homes (open_object rdwr rdonly path m).1 ≡ homes m
unfolding open_object
homes-open_object none rdonly path m = refl
homes-open_object (some fd) rdonly path m = refl

homes-count_fd : (fd : Option ℕ) (i : ℕ) (m : Memory) → homes (count_fd fd i m) ≡ homes m
homes-count_fd none i m = refl
homes-count_fd (some fd) i m = homes-update_entry i _ m (λ e. refl)

homes-refer :
    (rdwr rdonly : Option ℕ) (now i : ℕ) (m : Memory)
    → homes (refer rdwr rdonly now i m).1 ≡ homes m
unfolding refer
homes-refer rdwr rdonly now i m =
    homes-count_fd _ i _
    ∙ homes-index_entry_record_access now i _
    ∙ homes-open_object rdwr rdonly _ _
    ∙ homes-index_entry_get i m

homes-look_up :
    (w : Walk) (rdwr rdonly : Option ℕ) (now : ℕ) (idx : GlobalIndex) (m : Memory)
    → homes (look_up w rdwr rdonly now idx m).1.1 ≡ homes m
unfolding look_up
homes-look_up (found i) rdwr rdonly now idx m = homes-refer rdwr rdonly now i m
homes-look_up missing rdwr rdonly now idx m = refl
homes-look_up stuck rdwr rdonly now idx m = refl

pub homes-global_index_lookup :
    (rdwr rdonly : Option ℕ) (now : ℕ) (uri : List ℕ) (idx : GlobalIndex) (m : Memory)
    → homes (global_index_lookup rdwr rdonly now uri idx m).1.1 ≡ homes m
unfolding global_index_lookup
homes-global_index_lookup rdwr rdonly now uri idx m = homes-look_up _ rdwr rdonly now _ m

homes-link :
    (b i : ℕ) (buckets : List (Option ℕ)) (m : Memory) → homes (link b i buckets m).1 ≡ homes m
unfolding link
homes-link b i buckets m = homes-update_entry i _ m (λ e. refl)

homes-insert_unless :
    (w : Walk) (b i : ℕ) (idx : GlobalIndex) (m : Memory)
    → homes (insert_unless w b i idx m).1.1 ≡ homes m
unfolding insert_unless
homes-insert_unless (found j) b i idx m = refl
homes-insert_unless stuck b i idx m = refl
homes-insert_unless missing b i idx m = homes-link b i idx.buckets m

homes-insert_entry :
    (o : Option Entry) (i : ℕ) (idx : GlobalIndex) (m : Memory)
    → homes (insert_entry o i idx m).1.1 ≡ homes m
unfolding insert_entry
homes-insert_entry none i idx m = refl
homes-insert_entry (some e) i idx m = homes-insert_unless _ _ i idx m

pub homes-global_index_insert :
    (i : ℕ) (idx : GlobalIndex) (m : Memory) → homes (global_index_insert i idx m).1.1 ≡ homes m
unfolding global_index_insert
homes-global_index_insert i idx m = homes-insert_entry (get_elem? m.entries i) i idx m

homes-link_entry :
    (o : Option Entry) (i : ℕ) (idx : BackendIndex) (m : Memory)
    → homes (link_entry o i idx m).1 ≡ homes m
unfolding link_entry
homes-link_entry none i idx m = refl
homes-link_entry (some e) i idx m =
    homes-link _ i idx.buckets (index_entry_get i m) ∙ homes-index_entry_get i m

pub homes-backend_index_insert :
    (i : ℕ) (idx : BackendIndex) (m : Memory) → homes (backend_index_insert i idx m).1 ≡ homes m
unfolding backend_index_insert
homes-backend_index_insert i idx m = homes-link_entry (get_elem? m.entries i) i idx m

homes-unlink_entry :
    (prev : Option ℕ) (b : ℕ) (next : Option ℕ) (buckets : List (Option ℕ)) (m : Memory)
    → homes (unlink_entry prev b next buckets m).1 ≡ homes m
unfolding unlink_entry
homes-unlink_entry none b next buckets m = refl
homes-unlink_entry (some p) b next buckets m = homes-update_entry p _ m (λ e. refl)

homes-drop_fd : (fd : Option ℕ) (i : ℕ) (m : Memory) → homes (drop_fd fd i m) ≡ homes m
unfolding drop_fd
homes-drop_fd none i m = refl
homes-drop_fd (some fd) i m = homes-update_entry i _ m (λ e. refl)

homes-global_remove_at :
    (w : Located) (b : ℕ) (idx : GlobalIndex) (m : Memory)
    → homes (global_remove_at w b idx m).1.1 ≡ homes m
unfolding global_remove_at
homes-global_remove_at nowhere b idx m = refl
homes-global_remove_at endless b idx m = refl
homes-global_remove_at (at_link prev i) b idx m =
    homes-index_entry_put i _ ∙ homes-drop_fd _ i _ ∙ homes-unlink_entry prev b _ idx.buckets m

pub homes-global_index_remove :
    (uri : List ℕ) (idx : GlobalIndex) (m : Memory)
    → homes (global_index_remove uri idx m).1.1 ≡ homes m
unfolding global_index_remove
homes-global_index_remove uri idx m = homes-global_remove_at _ _ idx m

homes-backend_remove_at :
    (w : Located) (b : ℕ) (idx : BackendIndex) (m : Memory)
    → homes (backend_remove_at w b idx m).1.1 ≡ homes m
unfolding backend_remove_at
homes-backend_remove_at nowhere b idx m = refl
homes-backend_remove_at endless b idx m = refl
homes-backend_remove_at (at_link prev i) b idx m =
    homes-index_entry_put i _ ∙ homes-unlink_entry prev b _ idx.buckets m

pub homes-backend_index_remove :
    (uri : List ℕ) (idx : BackendIndex) (m : Memory)
    → homes (backend_index_remove uri idx m).1.1 ≡ homes m
unfolding backend_index_remove
homes-backend_index_remove uri idx m = homes-backend_remove_at _ _ idx m
