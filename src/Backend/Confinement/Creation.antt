-- ===== src/Backend/Confinement/Creation.antt =====
-- The creation of an object puts ephemeral objects on backends for them.
use objmapper.Base.{
  ℕ, ◌≡◌, refl, sym, ap, ◌∙◌, inl, inr, Bool, true, false, not, ◌&&◌, ◌||◌, Option, none, some,
  List, [], ◌∷◌, ◌++◌, ◌%◌, take, length, get_elem?, ◌==◌, bit_or, if◌then◌else◌, arith,
}
use objmapper.Base.Flags.{bit_or_low}
use objmapper.Index.Entry.{Entry, Memory, mkdir, open_create, call, index_entry_create}
use objmapper.Index.Tables.{GlobalIndex, global_index_insert, backend_index_insert}
use objmapper.Backend.Types.{
  BackendInfo, Manager, CreateReq, has_flag, flag_enabled, flag_ephemeral_only,
}
use objmapper.Backend.Registry.{is_memory, backend_manager_get_backend, update_backend}
use objmapper.Backend.Registry.Roles.{
  kind_of, SameRoles, SameRoles-self, SameRoles-trans, SameRoles-update_backend, has_flag-1,
}
use objmapper.Backend.Objects.{
  strip_slash, mkdir_from, mkdir_path, mkdir_p, make_parents, before_last_slash, object_path,
  new_entry, allocate, count_created, keep_created, enter_object, create_file, may_create,
  create_on, create_at, target_of, backend_create_object,
}
use objmapper.Backend.Confinement.{HomeConfined, Steps, stays}
use objmapper.Backend.Homes.{
  home, homes, homes_of, homes-update_entry, homes-index_entry_put, homes-index_entry_get,
  homes-global_index_insert, homes-backend_index_insert,
}

pub Steps-if {ℓ} :
    {A : Type ℓ} (b : Bool) (x y : A × (Manager × Memory)) (mgr : Manager) (m : Memory)
    → (b ≡ true → Steps mgr x.1.0 m x.1.1)
    → Steps mgr y.1.0 m y.1.1
    → Steps mgr (if b then x else y).1.0 m (if b then x else y).1.1
Steps-if true x y mgr m h k = h refl
Steps-if false x y mgr m h k = k

-- A change of fields that are neither backends nor roles.
pub with_fields :
    (mgr a b : Manager)
    → SameRoles mgr a
    → b.backends ≡ a.backends
    → b.max_backends ≡ a.max_backends
    → b.default_backend_id ≡ a.default_backend_id
    → b.ephemeral_backend_id ≡ a.ephemeral_backend_id
    → b.cache_backend_id ≡ a.cache_backend_id
    → SameRoles mgr b
with_fields mgr a b s bs mx d e c = record {
  kinds = λ i. ap (λ xs. kind_of (get_elem? xs i)) bs ∙ s.kinds i;
  size = ap length bs ∙ s.size;
  max = mx ∙ s.max;
  default_id = d ∙ s.default_id;
  ephemeral_id = e ∙ s.ephemeral_id;
  cache_id = c ∙ s.cache_id;
}

mkdir_from-homes :
    (made : List ℕ → Bool) (prefix path : List ℕ) (m : Memory)
    → homes (mkdir_from made prefix path m).1 ≡ homes m
unfolding mkdir_from
mkdir_from-homes made prefix [] m = refl
mkdir_from-homes made prefix (c ∷ rest) m =
    pick (c == b'/') (made prefix) _ _ _ (mkdir_from-homes made (prefix ++ c ∷ []) rest m)
      (mkdir_from-homes made (prefix ++ c ∷ []) rest (call (mkdir prefix) m)) refl
  where
    pick :
        (a b : Bool) (x y z : Bool × Memory)
        → homes x.1 ≡ homes m
        → homes y.1 ≡ homes m
        → homes z.1 ≡ homes m
        → homes (if a then (if b then y else z) else x).1 ≡ homes m
    pick true true x y z h k l = k
    pick true false x y z h k l = l
    pick false b x y z h k l = h

mkdir_path-homes :
    (made : List ℕ → Bool) (path : List ℕ) (m : Memory) → homes (mkdir_path made path m).1 ≡ homes m
unfolding mkdir_path
mkdir_path-homes made [] m = refl
mkdir_path-homes made (c ∷ rest) m = mkdir_from-homes made (c ∷ []) rest m

make_parents-homes :
    (made : List ℕ → Bool) (dir : Option (List ℕ)) (m : Memory)
    → homes (make_parents made dir m).1 ≡ homes m
unfolding make_parents mkdir_p
make_parents-homes made none m = refl
make_parents-homes made (some dir) m = mkdir_path-homes made (strip_slash (take 1023 dir)) m

pub homes_of-append :
    (es : List Entry) (e : Entry) → homes_of (es ++ e ∷ []) ≡ homes_of es ++ home e ∷ []
unfolding homes_of
homes_of-append [] e = refl
homes_of-append (x ∷ es) e = ap (λ hs. home x ∷ hs) (homes_of-append es e)

-- The flags of a new entry have the ephemeral bit only if the request is ephemeral.
new_flags :
    (flags : ℕ) (ephemeral : Bool)
    → (flags % 2 ≡ 1 → ephemeral ≡ true)
    → has_flag (bit_or flags (if ephemeral then 1 else 2)) 1 ≡ true
    → ephemeral ≡ true
new_flags flags true honest on = refl
new_flags flags false honest on =
    let low = bit_or_low flags 2 in
    let odd = sym (has_flag-1 (bit_or flags 2)) ∙ on in honest (ground arith)

-- A manager with another global index.
pub indexed : (mgr : Manager) (g : GlobalIndex) → SameRoles mgr (record mgr { global_index = g })
indexed mgr g =
    with_fields mgr mgr (record mgr { global_index = g }) (SameRoles-self mgr) refl refl refl refl
      refl

keep_created-Steps :
    (i fd id : ℕ) (backend : BackendInfo) (mgr : Manager) (m : Memory)
    → SameRoles mgr (keep_created i fd id backend mgr m).1.0
      × (homes (keep_created i fd id backend mgr m).1.1 ≡ homes m)
unfolding keep_created
keep_created-Steps i fd id backend mgr m =
    let inserted = backend_index_insert i backend.index m in
    (
      with_fields mgr (update_backend id (λ b. record (count_created b) { index = inserted.0 }) mgr)
          _ (SameRoles-update_backend id _ mgr (λ b. refl)) refl refl refl refl refl,
      homes-index_entry_get i _
          ∙ homes-update_entry i (λ e. record e { fd = some fd; fd_refcount = 1 }) inserted.1
              (λ e. refl)
          ∙ homes-backend_index_insert i backend.index m,
    )

-- The request has the ephemeral flag only if it asks for an ephemeral object.
abbrev pub IsHonest : CreateReq → Type 0
IsHonest req = req.flags % 2 ≡ 1 → req.ephemeral ≡ true

enter_object-Steps :
    (fd : ℕ) (req : CreateReq) (id : ℕ) (path : List ℕ) (backend : BackendInfo) (mgr : Manager)
    (m : Memory)
    → HomeConfined mgr (home (new_entry req id path))
    → Steps mgr
        (enter_object fd req id path backend mgr m).1.0
        m
        (enter_object fd req id path backend mgr m).1.1
unfolding enter_object
enter_object-Steps fd req id path backend mgr m confined =
    let i = length m.entries in
    let added : Memory = allocate (new_entry req id path) m in
    let inserted = global_index_insert i mgr.global_index added in
    let grown : homes inserted.1.1 ≡ homes m ++ home (new_entry req id path) ∷ [] =
      homes-global_index_insert i mgr.global_index added
      ∙ homes_of-append m.entries (new_entry req id path) in
    let kept =
      keep_created-Steps i fd id backend (record mgr { global_index = inserted.1.0 })
        inserted.1.1 in
    Steps-if inserted.0 _ _ mgr m
      (λ on. record {
        roles = SameRoles-trans (indexed mgr inserted.1.0) kept.0;
        places = inr (home (new_entry req id path), (kept.1 ∙ grown, confined));
      })
      (record {
        roles = indexed mgr inserted.1.0;
        places = inr (
          home (new_entry req id path),
          (homes-index_entry_put i inserted.1.1 ∙ grown, confined),
        );
      })

create_file-Steps :
    (opened : Option ℕ) (req : CreateReq) (id : ℕ) (path : List ℕ) (backend : BackendInfo)
    (mgr : Manager) (m : Memory)
    → HomeConfined mgr (home (new_entry req id path))
    → Steps mgr
        (create_file opened req id path backend mgr m).1.0
        m
        (create_file opened req id path backend mgr m).1.1
unfolding create_file
create_file-Steps none req id path backend mgr m confined = stays (SameRoles-self mgr) refl
create_file-Steps (some fd) req id path backend mgr m confined =
    let s = enter_object-Steps fd req id path backend mgr (call (open_create path) m) confined in
    record { roles = s.roles; places = s.places }

-- Steps go on from a memory with the same homes.
pub Steps-from :
    {mgr mgr' : Manager} {m n m' : Memory}
    → homes n ≡ homes m
    → Steps mgr mgr' n m'
    → Steps mgr mgr' m m'
Steps-from same s = record {
  roles = s.roles;
  places = elim s.places [
    | inl still ↦ inl (still ∙ same)
    | inr grown ↦ inr (grown.0, (grown.1.0 ∙ ap (λ hs. hs ++ grown.0 ∷ []) same, grown.1.1))
  ];
}

and-right : (a b : Bool) → (a && b) ≡ true → b ≡ true
and-right true b h = h
and-right false b h = cc

create_on-Steps :
    (o : Option BackendInfo) (made : List ℕ → Bool) (opened : Option ℕ) (req : CreateReq) (id : ℕ)
    (mgr : Manager) (m : Memory)
    → IsHonest req
    → get_elem? mgr.backends id ≡ o
    → Steps mgr
        (create_on o made opened req id mgr m).1.0
        m
        (create_on o made opened req id mgr m).1.1
unfolding create_on index_entry_create
create_on-Steps none made opened req id mgr m honest there = stays (SameRoles-self mgr) refl
create_on-Steps (some backend) made opened req id mgr m honest there =
    let path = object_path backend.mount_path req.uri in
    let dir = before_last_slash path in
    let parents = make_parents made dir m in
    Steps-if (may_create req backend) _ _ mgr m
      (λ may.
        Steps-if parents.0 _ _ mgr m
          (λ on. Steps-from (make_parents-homes made dir m) (
            create_file-Steps opened req id path backend mgr parents.1 (λ flag. (
              (backend.id, (is_memory backend.kind, has_flag backend.flags flag_ephemeral_only)),
              (
                ap kind_of there,
                only req.ephemeral _ (new_flags req.flags req.ephemeral honest flag)
                    (and-right (has_flag backend.flags flag_enabled) _ may),
              ),
            ))))
          (stays (SameRoles-self mgr) (make_parents-homes made dir m)))
      (stays (SameRoles-self mgr) refl)
  where
    only : (a b : Bool) → a ≡ true → (not a || b) ≡ true → b ≡ true
    only true b h k = k
    only false b h k = cc

create_at-Steps :
    (target : Option ℕ) (made : List ℕ → Bool) (opened : Option ℕ) (req : CreateReq) (mgr : Manager)
    (m : Memory)
    → IsHonest req
    → Steps mgr
        (create_at target made opened req mgr m).1.0
        m
        (create_at target made opened req mgr m).1.1
unfolding create_at backend_manager_get_backend
create_at-Steps none made opened req mgr m honest = stays (SameRoles-self mgr) refl
create_at-Steps (some id) made opened req mgr m honest =
    create_on-Steps (get_elem? mgr.backends id) made opened req id mgr m honest refl

pub backend_create_object-Steps :
    (made : List ℕ → Bool) (opened : Option ℕ) (req : CreateReq) (mgr : Manager) (m : Memory)
    → IsHonest req
    → Steps mgr
        (backend_create_object made opened req mgr m).1.0
        m
        (backend_create_object made opened req mgr m).1.1
unfolding backend_create_object
backend_create_object-Steps made opened req mgr m honest =
    create_at-Steps (target_of req mgr) made opened req mgr m honest
