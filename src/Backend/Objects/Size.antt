-- ===== src/Backend/Objects/Size.antt =====
-- The bytes in use follow the sizes of the objects.
use objmapper.Base.{
  ℕ, ◌+◌, ◌-◌, ◌%◌, ◌^◌, ◌≤◌, ◌<◌, ◌≡◌, refl, sym, ap, subst, ◌∙◌, Bool, true, Option, none, some,
  List, get_elem?, get_elem?-set_self, arith,
}
use objmapper.Index.Entry.{Entry, Memory, FdRef, index_hash_string}
use objmapper.Index.Tables.{GlobalIndex, Walk, found, search, refer, look_up, global_index_lookup}
use objmapper.Index.Tables.References.{refer_at, opened_fd, counted, seen, taken}
use objmapper.Backend.Types.{BackendInfo, Manager, Opened}
use objmapper.Backend.Registry.{backend_manager_get_backend, replace_backend, update_backend}
use objmapper.Backend.Registry.Roles.{set_below}
use objmapper.Backend.Objects.{
  find, resized, resize_on, resize_entry, resize_at, resize_found, backend_update_size,
}

-- A backend that has room for the change: the object is counted, and nothing wraps around.
pub record HasRoom (old new used : ℕ) : Type 0 where
  pub counted_in : old ≤ used
  pub fits : used < 2 ^ 64
  pub stays : used - old + new < 2 ^ 64

resized_sum : (old new used : ℕ) → HasRoom old new used → resized old new used ≡ used - old + new
unfolding resized
resized_sum old new used ok =
    let counted_in = ok.counted_in in let fits = ok.fits in let stays = ok.stays in ground arith

update_backend_at :
    (id : ℕ) (change : BackendInfo → BackendInfo) (mgr : Manager) (b : BackendInfo)
    → get_elem? mgr.backends id ≡ some b
    → get_elem? (update_backend id change mgr).backends id ≡ some (change b)
unfolding update_backend
update_backend_at id change mgr b there =
    ap (λ o. get_elem? (replace_backend o id change mgr).backends id) there
    ∙ get_elem?-set_self mgr.backends id (change b) (set_below mgr.backends id b there)

-- The call succeeded, and the backend has these bytes in use.
abbrev pub IsUsed : ℕ → ℕ → Bool × (Manager × Memory) → Type 0
IsUsed id used r =
    (r.0 ≡ true)
    × ((b : BackendInfo) × ((get_elem? r.1.0.backends id ≡ some b) × (b.used_bytes ≡ used)))

resize_entry-IsUsed :
    (e : Entry) (ref : FdRef) (i new : ℕ) (mgr : Manager) (m : Memory) (b : BackendInfo)
    → get_elem? mgr.backends e.backend_id ≡ some b
    → HasRoom e.size_bytes new b.used_bytes
    → IsUsed e.backend_id
        (b.used_bytes - e.size_bytes + new)
        (resize_entry (some e) ref i new mgr m)
unfolding resize_entry resize_on backend_manager_get_backend
resize_entry-IsUsed e ref i new mgr m b there ok =
    subst (IsUsed e.backend_id (b.used_bytes - e.size_bytes + new))
      (ap (λ o. resize_on o ref i e new mgr m) (sym there))
      (
        refl,
        (
          record b { used_bytes = resized e.size_bytes new b.used_bytes },
          (
            update_backend_at e.backend_id
                (λ b. record b { used_bytes = resized e.size_bytes new b.used_bytes }) mgr b there,
            resized_sum e.size_bytes new b.used_bytes ok,
          ),
        ),
      )

-- What a lookup leaves of an entry.
abbrev place_and_size : Entry → ℕ × ℕ
place_and_size e = (e.backend_id, e.size_bytes)

counted_same :
    (fd : Option ℕ) (now : ℕ) (e : Entry)
    → place_and_size (counted fd (seen now (taken e))) ≡ place_and_size e
counted_same none now e = refl
counted_same (some fd) now e = refl

-- The change of the size of an object that the index finds moves the bytes in use of its backend by
-- the difference, up or down. The backend is there, the object is counted in what it uses, and the
-- new sum is below 2 ^ 64.
pub backend_update_size-IsUsed :
    (answer : Opened) (uri : List ℕ) (new : ℕ) (mgr : Manager) (m : Memory) (i : ℕ) (e : Entry)
    (b : BackendInfo)
    → search m mgr.global_index.buckets mgr.global_index.num_buckets (index_hash_string uri) uri
      ≡ found i
    → get_elem? m.entries i ≡ some e
    → get_elem? mgr.backends e.backend_id ≡ some b
    → HasRoom e.size_bytes new b.used_bytes
    → IsUsed e.backend_id
        (b.used_bytes - e.size_bytes + new)
        (backend_update_size answer uri new mgr m)
unfolding backend_update_size resize_found resize_at find global_index_lookup look_up refer
backend_update_size-IsUsed answer uri new mgr m i e b hit there at_backend ok =
    let counter : GlobalIndex = record mgr.global_index {
      stat_lookups = (mgr.global_index.stat_lookups + 1) % 2 ^ 64;
    } in
    let referred = refer answer.rdwr answer.rdonly answer.now i m in
    let after = counted (opened_fd answer.rdwr answer.rdonly) (seen answer.now (taken e)) in
    let looked = look_up (found i) answer.rdwr answer.rdonly answer.now counter m in
    let mgr' : Manager = record mgr { global_index = looked.1.0 } in
    let same = counted_same (opened_fd answer.rdwr answer.rdonly) answer.now e in
    let id : after.backend_id ≡ e.backend_id = ap (λ (p : ℕ × ℕ). p.0) same in
    let size : after.size_bytes ≡ e.size_bytes = ap (λ (p : ℕ × ℕ). p.1) same in
    let resize = resize_entry (some after) referred.0 i new mgr' referred.1 in
    let used : IsUsed after.backend_id (b.used_bytes - after.size_bytes + new) resize =
      resize_entry-IsUsed after referred.0 i new mgr' referred.1 b
        (ap (get_elem? mgr.backends) id ∙ at_backend)
        (subst (λ s. HasRoom s new b.used_bytes) (sym size) ok) in
    subst (IsUsed e.backend_id (b.used_bytes - e.size_bytes + new))
      (sym (
        ap
          (λ (w : Walk).
            let l = look_up w answer.rdwr answer.rdonly answer.now counter m in
            resize_found l.0 new (record mgr { global_index = l.1.0 }) l.1.1)
          hit
        ∙ ap (λ o. resize_entry o referred.0 i new mgr' referred.1)
            (refer_at answer.rdwr answer.rdonly answer.now i m e there)))
      (subst (λ k. IsUsed k (b.used_bytes - e.size_bytes + new) resize) id
        (subst (λ s. IsUsed after.backend_id (b.used_bytes - s + new) resize) size used))
