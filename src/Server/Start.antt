-- ===== src/Server/Start.antt =====
-- What the set-up of the backends gives.
use objmapper.Base.{
  ℕ, ◌*◌, ◌^◌, ◌≡◌, refl, sym, subst, ◌∙◌, Bool, true, false, Option, some, List, if◌then◌else◌,
}
use objmapper.Index.Entry.{Memory, mkdir, call}
use objmapper.Backend.Types.{Manager, memory, ssd, has_flag}
use objmapper.Backend.Registry.{
  backend_manager_create, backend_manager_register, backend_manager_set_default,
  backend_manager_set_ephemeral, backend_manager_set_cache, backend_start_caching, set_default_to,
  set_ephemeral_to, set_cache_to, backend_manager_get_backend, new_backend,
}
use objmapper.Backend.Registry.Roles.{
  HasRoles, SameRoles, SameRoles-self, SameRoles-trans, SameRoles-HasRoles,
}
use objmapper.Backend.Registry.Settings.{
  register, set_default, set_ephemeral, set_cache, apply_setting-HasRoles,
  backend_manager_create-HasRoles,
}
use objmapper.Backend.Confinement.Scan.{backend_manager_scan-Keeps}
use objmapper.Backend.Confinement.Creation.{with_fields}
use objmapper.Server.Setup.{
  SetupAnswers, memory_name, persistent_name, memory_flags, persistent_flags, configure,
  configure_if, register_persistent, init_backends,
}

backend_start_caching-SameRoles :
    (created : Bool) (interval : ℕ) (mgr : Manager)
    → SameRoles mgr (backend_start_caching created interval mgr).1
unfolding backend_start_caching
backend_start_caching-SameRoles created interval mgr = on mgr.cache_running
  where
    on :
        (b : Bool)
        → (let r : Bool × Manager = if b then (true, mgr) else (
          created,
          record mgr { cache_check_interval_us = interval; cache_running = created },
        ) in
            SameRoles mgr r.1)
    on true = SameRoles-self mgr
    on false =
        with_fields mgr mgr
          (record mgr { cache_check_interval_us = interval; cache_running = created })
          (SameRoles-self mgr) refl refl refl refl refl

module _ (answers : SetupAnswers) (memory_path persistent_path : List ℕ) (m : Memory) where
  first : Option ℕ × (Manager × Memory)
  first =
      backend_manager_register answers.stale answers.memory_file memory memory_path memory_name
        (4 * 2 ^ 30) memory_flags (backend_manager_create 8192 2000) (call (mkdir memory_path) m)

  second : Option ℕ × (Manager × Memory)
  unfolding first
  second =
      backend_manager_register answers.stale answers.persistent_file ssd persistent_path
        persistent_name (100 * 2 ^ 30) persistent_flags first.1.0
        (call (mkdir persistent_path) first.1.1)

  ran :
      init_backends answers memory_path persistent_path m
      ≡ (true, configure answers (some 0) (some 1) second.1.0 second.1.1)
  unfolding init_backends register_persistent configure_if first second backend_manager_register
      backend_manager_create
  ran = refl

  registered : HasRoles second.1.0
  unfolding first second
  registered =
      apply_setting-HasRoles
        (register answers.stale answers.persistent_file ssd persistent_path persistent_name
          (100 * 2 ^ 30) persistent_flags)
        first.1.0 (call (mkdir persistent_path) first.1.1)
        (apply_setting-HasRoles
          (register answers.stale answers.memory_file memory memory_path memory_name (4 * 2 ^ 30)
            memory_flags)
          (backend_manager_create 8192 2000) (call (mkdir memory_path) m)
          (backend_manager_create-HasRoles 8192 2000))

  roles : Manager
  unfolding second
  roles =
      (backend_manager_set_cache (some 0)
        (backend_manager_set_ephemeral (some 0)
          (backend_manager_set_default (some 1) second.1.0).1).1).1

  roles-HasRoles : HasRoles roles
  unfolding roles
  roles-HasRoles =
      let n = second.1.1 in
      apply_setting-HasRoles (set_cache (some 0)) _ n (
        apply_setting-HasRoles (set_ephemeral (some 0)) _ n
          (apply_setting-HasRoles (set_default (some 1)) second.1.0 n registered))

  configured : SameRoles roles (configure answers (some 0) (some 1) second.1.0 second.1.1).0
  unfolding configure roles
  configured =
      let one = backend_manager_scan-Keeps (some 0) answers.memory_listing roles second.1.1 in
      let two = backend_manager_scan-Keeps (some 1) answers.persistent_listing _ _ in
      SameRoles-trans one.roles (
        SameRoles-trans two.roles
          (backend_start_caching-SameRoles answers.thread_created 1000000 _))

-- The roles of the server's backends.
pub record IsStarted (r : Bool × (Manager × Memory)) : Type 0 where
  pub success : r.0 ≡ true
  pub roles : HasRoles r.1.0
  pub default_id : r.1.0.default_backend_id ≡ some 1
  pub ephemeral_id : r.1.0.ephemeral_backend_id ≡ some 0
  pub cache_id : r.1.0.cache_backend_id ≡ some 0

-- However the two backends are found: both are registered, the first takes ephemeral objects and is
-- the cache, the second is the default, and every role fits its backend.
pub init_backends-IsStarted :
    (answers : SetupAnswers) (memory_path persistent_path : List ℕ) (m : Memory)
    → IsStarted (init_backends answers memory_path persistent_path m)
unfolding roles second first backend_manager_set_default backend_manager_set_ephemeral
    backend_manager_set_cache set_default_to set_ephemeral_to set_cache_to
    backend_manager_get_backend backend_manager_register backend_manager_create new_backend has_flag
init_backends-IsStarted answers memory_path persistent_path m =
    let kept = configured answers memory_path persistent_path m in
    subst IsStarted (sym (ran answers memory_path persistent_path m)) (record {
      success = refl;
      roles = SameRoles-HasRoles kept (roles-HasRoles answers memory_path persistent_path m);
      default_id = kept.default_id ∙ refl;
      ephemeral_id = kept.ephemeral_id ∙ refl;
      cache_id = kept.cache_id ∙ refl;
    })
