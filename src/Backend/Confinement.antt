-- ===== src/Backend/Confinement.antt =====
-- An ephemeral object is on a backend for ephemeral objects: what one operation must keep for that.
pub mod Creation
pub mod Scan
pub mod Calls
use objmapper.Base.{
  ℕ, zero, suc, ◌≡◌, ◌⊎◌, refl, sym, ap, subst, ◌∙◌, inl, inr, Bool, true, false, not, ◌&&◌, ◌||◌,
  Option, none, some, List, [], ◌∷◌, ◌++◌, length, get_elem?, ◌==◌, bit_or, Bool-cases,
  if◌then◌else◌, if_eq_true, if_eq_false, arith,
}
use objmapper.Base.Flags.{bit_or_low}
use objmapper.Index.Entry.{
  Entry, Memory, FdRef, open_create, unlink, close, call, fd_ref_release, index_entry_create,
}
use objmapper.Index.Tables.{global_index_insert, backend_index_insert}
use objmapper.Index.Removal.{backend_index_remove, global_index_remove}
use objmapper.Backend.Types.{
  BackendInfo, Manager, CreateReq, Metadata, Opened, has_flag, flag_ephemeral_only,
  index_flag_ephemeral, index_flag_persistent,
}
use objmapper.Backend.Registry.{backend_manager_get_backend, update_backend}
use objmapper.Backend.Registry.Roles.{
  kind_of, SameRoles, SameRoles-self, SameRoles-trans, SameRoles-update_backend, has_flag-1,
}
use objmapper.Backend.Objects.{
  mkdir_from, mkdir_path, mkdir_p, make_parents, before_last_slash, object_path, new_entry,
  allocate, keep_created, enter_object, create_file, may_create, create_on, create_at, target_of,
  backend_create_object, entry_of, find, count_read, record_access, get_found, backend_get_object,
  delete_from, delete_entry, delete_found, backend_delete_object, read_metadata,
  backend_get_metadata, resize_on, resize_entry, resize_at, resize_found, backend_update_size,
}
use objmapper.Backend.Homes.{
  Home, home, homes, homes_of, homes-update_entry, homes-index_entry_put, homes-index_entry_get,
  homes-index_entry_record_access, homes-fd_ref_release, homes-global_index_lookup,
  homes-global_index_insert, homes-backend_index_insert, homes-global_index_remove,
  homes-backend_index_remove,
}

-- The backend is there and takes only ephemeral objects.
abbrev pub HoldsEphemeral : Manager → ℕ → Type 0
HoldsEphemeral mgr id =
    (k : ℕ × (Bool × Bool)) × ((kind_of (get_elem? mgr.backends id) ≡ some k) × (k.1.1 ≡ true))

-- A home of an ephemeral entry is on such a backend.
abbrev pub HomeConfined : Manager → Home → Type 0
HomeConfined mgr h = has_flag h.0 index_flag_ephemeral ≡ true → HoldsEphemeral mgr h.1.0

abbrev pub IsConfined : Manager → Memory → Type 0
IsConfined mgr m = (i : ℕ) (h : Home) → get_elem? (homes m) i ≡ some h → HomeConfined mgr h

-- What an operation does: the backends keep their kinds, and at most one entry is new, which is
-- where it may be.
pub record Steps (mgr mgr' : Manager) (m m' : Memory) : Type 0 where
  pub roles : SameRoles mgr mgr'
  pub places :
      (homes m' ≡ homes m) ⊎ ((h : Home) × ((homes m' ≡ homes m ++ h ∷ []) × HomeConfined mgr h))

pub stays :
    {mgr mgr' : Manager} {m m' : Memory}
    → SameRoles mgr mgr'
    → homes m' ≡ homes m
    → Steps mgr mgr' m m'
stays roles same = record { roles = roles; places = inl same }

get_elem?-append :
    (hs : List Home) (h k : Home) (i : ℕ)
    → get_elem? (hs ++ h ∷ []) i ≡ some k
    → (get_elem? hs i ≡ some k) ⊎ (h ≡ k)
get_elem?-append [] h k zero e = inr (ap (λ o. elim o [ none ↦ h | some x ↦ x ]) e)
get_elem?-append [] h k (suc i) e = cc
get_elem?-append (x ∷ hs) h k zero e = inl e
get_elem?-append (x ∷ hs) h k (suc i) e = get_elem?-append hs h k i e

pub Steps-IsConfined :
    (mgr mgr' : Manager) (m m' : Memory)
    → Steps mgr mgr' m m'
    → IsConfined mgr m
    → IsConfined mgr' m'
Steps-IsConfined mgr mgr' m m' s ok i h e on =
    let holds : HoldsEphemeral mgr h.1.0 = elim s.places [
      | inl same ↦ ok i h (ap (λ hs. get_elem? hs i) (sym same) ∙ e) on
      | inr grown ↦
          elim (get_elem?-append (homes m) grown.0 h i
            (ap (λ hs. get_elem? hs i) (sym grown.1.0) ∙ e)) [
              | inl old ↦ ok i h old on
              | inr new ↦ subst (HomeConfined mgr) new grown.1.1 on
            ]
    ] in
    (holds.0, (s.roles.kinds h.1.0 ∙ holds.1.0, holds.1.1))
