-- ===== src/Backend/Registry/Settings.antt =====
-- Every way to set up a manager keeps the roles of its backends.
use objmapper.Base.{
  ℕ, zero, suc, ◌<◌, ◌≡◌, refl, sym, ap, subst, ◌∙◌, inl, inr, ◌⊎◌, Bool, not, Option, none, some,
  List, [], ◌∷◌, ◌++◌, length, length-append, get_elem?, leb, Bool-cases, if_eq_true, if_eq_false,
  arith,
}
use objmapper.Index.Entry.{Memory}
use objmapper.Backend.Types.{
  BackendType, MigrationPolicy, flag_ephemeral_only, has_flag, BackendInfo, Manager,
}
use objmapper.Backend.Registry.{
  backend_manager_create, new_backend, backend_manager_register, backend_manager_get_backend,
  set_default_to, backend_manager_set_default, set_ephemeral_to, backend_manager_set_ephemeral,
  set_cache_to, backend_manager_set_cache, is_memory, backend_set_enabled,
  backend_set_migration_policy,
}
use objmapper.Backend.Registry.Roles.{
  HasRoles, kind_of, backend_set_enabled-HasRoles, backend_set_migration_policy-HasRoles,
}

-- A backend that is looked up has the kind that stands at its identifier.
kind_at :
    (mgr : Manager) (i : ℕ) (b : BackendInfo) (id : Option ℕ)
    → backend_manager_get_backend mgr id ≡ some b
    → id ≡ some i
    → kind_of (get_elem? mgr.backends i) ≡ kind_of (some b)
unfolding backend_manager_get_backend
kind_at mgr i b id there e =
    let found : backend_manager_get_backend mgr (some i) ≡ some b =
      ap (backend_manager_get_backend mgr) (sym e) ∙ there in
    ap kind_of found

set_default_to-HasRoles :
    (o : Option BackendInfo) (id : Option ℕ) (mgr : Manager)
    → backend_manager_get_backend mgr id ≡ o
    → HasRoles mgr
    → HasRoles (set_default_to o id mgr).1
unfolding set_default_to
set_default_to-HasRoles none id mgr e ok = ok
set_default_to-HasRoles (some b) id mgr e ok =
    elim (Bool-cases (has_flag b.flags flag_ephemeral_only)) [
      | inl on ↦
          subst (λ (r : Bool × Manager). HasRoles r.1)
            (sym (if_eq_true (has_flag b.flags flag_ephemeral_only) _ _ on)) ok
      | inr off ↦
          subst (λ (r : Bool × Manager). HasRoles r.1)
            (sym (if_eq_false (has_flag b.flags flag_ephemeral_only) _ _ off))
            (record {
              bounded = ok.bounded;
              numbered = ok.numbered;
              default_persistent = λ i h. (
                (b.id, (is_memory b.kind, has_flag b.flags flag_ephemeral_only)),
                (kind_at mgr i b id e h, off),
              );
              ephemeral_only = ok.ephemeral_only;
              cache_memory = ok.cache_memory;
            })
    ]

set_ephemeral_to-HasRoles :
    (o : Option BackendInfo) (id : Option ℕ) (mgr : Manager)
    → backend_manager_get_backend mgr id ≡ o
    → HasRoles mgr
    → HasRoles (set_ephemeral_to o id mgr).1
unfolding set_ephemeral_to
set_ephemeral_to-HasRoles none id mgr e ok = ok
set_ephemeral_to-HasRoles (some b) id mgr e ok =
    elim (Bool-cases (has_flag b.flags flag_ephemeral_only)) [
      | inr off ↦
          subst (λ (r : Bool × Manager). HasRoles r.1)
            (sym (if_eq_true (not (has_flag b.flags flag_ephemeral_only)) _ _ (ap not off))) ok
      | inl on ↦
          subst (λ (r : Bool × Manager). HasRoles r.1)
            (sym (if_eq_false (not (has_flag b.flags flag_ephemeral_only)) _ _ (ap not on)))
            (record {
              bounded = ok.bounded;
              numbered = ok.numbered;
              default_persistent = ok.default_persistent;
              ephemeral_only = λ i h. (
                (b.id, (is_memory b.kind, has_flag b.flags flag_ephemeral_only)),
                (kind_at mgr i b id e h, on),
              );
              cache_memory = ok.cache_memory;
            })
    ]

set_cache_to-HasRoles :
    (o : Option BackendInfo) (id : Option ℕ) (mgr : Manager)
    → backend_manager_get_backend mgr id ≡ o
    → HasRoles mgr
    → HasRoles (set_cache_to o id mgr).1
unfolding set_cache_to
set_cache_to-HasRoles none id mgr e ok = ok
set_cache_to-HasRoles (some b) id mgr e ok = elim (Bool-cases (is_memory b.kind)) [
  | inr off ↦
      subst (λ (r : Bool × Manager). HasRoles r.1)
        (sym (if_eq_true (not (is_memory b.kind)) _ _ (ap not off))) ok
  | inl on ↦
      subst (λ (r : Bool × Manager). HasRoles r.1)
        (sym (if_eq_false (not (is_memory b.kind)) _ _ (ap not on)))
        (record {
          bounded = ok.bounded;
          numbered = ok.numbered;
          default_persistent = ok.default_persistent;
          ephemeral_only = ok.ephemeral_only;
          cache_memory = λ i h. (
            (b.id, (is_memory b.kind, has_flag b.flags flag_ephemeral_only)),
            (kind_at mgr i b id e h, on),
          );
        })
]

abbrev KindsAfter : List BackendInfo → BackendInfo → ℕ → Type 0
KindsAfter bs b i =
    (kind_of (get_elem? (bs ++ b ∷ []) i) ≡ kind_of (get_elem? bs i))
    ⊎ ((i ≡ length bs) × (kind_of (get_elem? (bs ++ b ∷ []) i) ≡ kind_of (some b)))

append_kinds : (bs : List BackendInfo) (b : BackendInfo) (i : ℕ) → KindsAfter bs b i
append_kinds [] b zero = inr (refl, refl)
append_kinds [] b (suc i) = inl refl
append_kinds (x ∷ bs) b zero = inl refl
append_kinds (x ∷ bs) b (suc i) = elim (append_kinds bs b i) [
  | inl same ↦ inl same
  | inr last ↦ inr (ap suc last.0, last.1)
]

append_known :
    (bs : List BackendInfo) (b : BackendInfo) (i : ℕ) (k : ℕ × (Bool × Bool))
    → kind_of (get_elem? bs i) ≡ some k
    → kind_of (get_elem? (bs ++ b ∷ []) i) ≡ some k
append_known [] b i k e = cc
append_known (x ∷ bs) b zero k e = e
append_known (x ∷ bs) b (suc i) k e = append_known bs b i k e

append-HasRoles :
    (b : BackendInfo) (mgr : Manager)
    → b.id ≡ length mgr.backends
    → length mgr.backends < mgr.max_backends
    → HasRoles mgr
    → HasRoles (record mgr { backends = mgr.backends ++ b ∷ [] })
append-HasRoles b mgr id room ok = record {
  bounded = (let size = length-append mgr.backends (b ∷ []) in omega (arith, size, room));
  numbered = λ i k e. elim (append_kinds mgr.backends b i) [
    | inl same ↦ ok.numbered i k (sym same ∙ e)
    | inr last ↦
        let own : kind_of (some b) ≡ some k = sym last.1 ∙ e in
        let number : b.id ≡ k.0 =
          ap (λ (o : Option (ℕ × (Bool × Bool))). elim o [ none ↦ 0 | some x ↦ x.0 ]) own in
        sym number ∙ id ∙ sym last.0
  ];
  default_persistent = λ i e.
      let r = ok.default_persistent i e in (r.0, (append_known mgr.backends b i r.0 r.1.0, r.1.1));
  ephemeral_only = λ i e.
      let r = ok.ephemeral_only i e in (r.0, (append_known mgr.backends b i r.0 r.1.0, r.1.1));
  cache_memory =
      λ i e. let r = ok.cache_memory i e in (r.0, (append_known mgr.backends b i r.0 r.1.0, r.1.1));
}

-- The calls that set up a manager.
pub data Setting : Type 0 where
  register : List ℕ → Option (List ℕ) → BackendType → List ℕ → List ℕ → ℕ → ℕ → Setting
  set_default set_ephemeral set_cache : Option ℕ → Setting
  set_enabled : Option ℕ → Bool → Setting
  set_policy : Option ℕ → MigrationPolicy → Setting

abbrev pub apply_setting : Setting → Manager × Memory → Manager × Memory
apply_setting (register stale file kind path name capacity flags) (mgr, m) =
    (backend_manager_register stale file kind path name capacity flags mgr m).1
apply_setting (set_default id) (mgr, m) = ((backend_manager_set_default id mgr).1, m)
apply_setting (set_ephemeral id) (mgr, m) = ((backend_manager_set_ephemeral id mgr).1, m)
apply_setting (set_cache id) (mgr, m) = ((backend_manager_set_cache id mgr).1, m)
apply_setting (set_enabled id on) (mgr, m) = ((backend_set_enabled id on mgr).1, m)
apply_setting (set_policy id policy) (mgr, m) = ((backend_set_migration_policy id policy mgr).1, m)

unfoldable pub apply_settings : List Setting → Manager × Memory → Manager × Memory
apply_settings [] s = s
apply_settings (c ∷ cs) s = apply_settings cs (apply_setting c s)

register-HasRoles :
    (stale : List ℕ) (file : Option (List ℕ)) (kind : BackendType) (path name : List ℕ)
    (capacity flags : ℕ) (mgr : Manager) (m : Memory)
    → HasRoles mgr
    → HasRoles (backend_manager_register stale file kind path name capacity flags mgr m).1.0
unfolding backend_manager_register new_backend
register-HasRoles stale file kind path name capacity flags mgr m ok =
    elim (Bool-cases (leb mgr.max_backends (length mgr.backends))) [
      | inl full ↦
          subst (λ (r : Option ℕ × (Manager × Memory)). HasRoles r.1.0)
            (sym (if_eq_true (leb mgr.max_backends (length mgr.backends)) _ _ full)) ok
      | inr room ↦
          subst (λ (r : Option ℕ × (Manager × Memory)). HasRoles r.1.0)
            (sym (if_eq_false (leb mgr.max_backends (length mgr.backends)) _ _ room))
            (append-HasRoles _ mgr refl (ground arith) ok)
    ]

pub apply_setting-HasRoles :
    (c : Setting) (mgr : Manager) (m : Memory)
    → HasRoles mgr
    → HasRoles (apply_setting c (mgr, m)).0
unfolding backend_manager_set_default backend_manager_set_ephemeral backend_manager_set_cache
apply_setting-HasRoles (register stale file kind path name capacity flags) mgr m ok =
    register-HasRoles stale file kind path name capacity flags mgr m ok
apply_setting-HasRoles (set_default id) mgr m ok = set_default_to-HasRoles _ id mgr refl ok
apply_setting-HasRoles (set_ephemeral id) mgr m ok = set_ephemeral_to-HasRoles _ id mgr refl ok
apply_setting-HasRoles (set_cache id) mgr m ok = set_cache_to-HasRoles _ id mgr refl ok
apply_setting-HasRoles (set_enabled id on) mgr m ok = backend_set_enabled-HasRoles id on mgr ok
apply_setting-HasRoles (set_policy id policy) mgr m ok =
    backend_set_migration_policy-HasRoles id policy mgr ok

keeps_roles :
    (cs : List Setting) (mgr : Manager) (m : Memory)
    → HasRoles mgr
    → HasRoles (apply_settings cs (mgr, m)).0
unfolding apply_settings
keeps_roles [] mgr m ok = ok
keeps_roles (c ∷ cs) mgr m ok =
    keeps_roles cs (apply_setting c (mgr, m)).0 (apply_setting c (mgr, m)).1
      (apply_setting-HasRoles c mgr m ok)

-- A manager without backends.
pub backend_manager_create-HasRoles :
    (buckets fds : ℕ) → HasRoles (backend_manager_create buckets fds)
unfolding backend_manager_create
backend_manager_create-HasRoles buckets fds = record {
  bounded = omega arith;
  numbered = λ i k e. cc;
  default_persistent = λ i e. cc;
  ephemeral_only = λ i e. cc;
  cache_memory = λ i e. cc;
}

-- However a manager is set up, by registrations, choices of roles and changes of backends in any
-- order: its backends are at most max_backends and numbered by their places, the default backend is
-- not ephemeral, the ephemeral backend is, and the cache is in memory.
pub apply_settings-HasRoles :
    (buckets fds : ℕ) (cs : List Setting) (m : Memory)
    → HasRoles (apply_settings cs (backend_manager_create buckets fds, m)).0
apply_settings-HasRoles buckets fds cs m =
    keeps_roles cs (backend_manager_create buckets fds) m
      (backend_manager_create-HasRoles buckets fds)
