-- ===== src/Backend/Objects/Found.antt =====
-- What is found after the creation of an object.
use objmapper.Base.{
  ℕ, ◌<◌, ◌≡◌, refl, sym, ap, subst, ◌∙◌, Bool, true, false, Option, none, some, List, [], ◌∷◌,
  ◌++◌, length, get_elem?, if◌then◌else◌, ◌+◌, ◌%◌, ◌^◌, ◌&&◌, ==_self, bytes_eq, bytes_eq_self,
}
use objmapper.Index.Entry.{
  Entry, Memory, FdRef, open_create, unlink, close, call, update_entry, increment,
  index_hash_string, index_entry_create, index_entry_get, index_entry_put,
}
use objmapper.Index.Entry.Balance.{update_entry_at}
use objmapper.Index.Tables.{
  GlobalIndex, BackendIndex, Walk, found, missing, stuck, search, head_of, bucket_of, matches,
  look_up, global_index_lookup, link, insert_unless, insert_entry, global_index_insert,
  backend_index_insert,
}
use objmapper.Index.Tables.References.{refer_fd, opened_fd}
use objmapper.Index.Tables.Chains.{search_head, backend_index_insert_at, head_of-set, linked_to}
use objmapper.Backend.Types.{BackendInfo, Manager, CreateReq, Opened}
use objmapper.Backend.Registry.{backend_manager_get_backend, replace_backend, update_backend}
use objmapper.Backend.Objects.{
  make_parents, before_last_slash, object_path, new_entry, allocate, count_created, keep_created,
  enter_object, create_file, may_create, create_on, create_at, target_of, backend_create_object,
  find, get_found, backend_get_object,
}

-- The entry is there, with this URI and hash.
abbrev HasKey : ℕ → List ℕ → ℕ → Memory → Type 0
HasKey hash uri i m =
    (e : Entry) × ((get_elem? m.entries i ≡ some e) × ((e.uri ≡ uri) × (e.uri_hash ≡ hash)))

update_entry-HasKey :
    (hash : ℕ) (uri : List ℕ) (i : ℕ) (change : Entry → Entry) (m : Memory)
    → ((e : Entry) → (change e).uri ≡ e.uri)
    → ((e : Entry) → (change e).uri_hash ≡ e.uri_hash)
    → HasKey hash uri i m
    → HasKey hash uri i (update_entry i change m)
update_entry-HasKey hash uri i change m same_uri same_hash at = (
  change at.0,
  (update_entry_at i change m at.0 at.1.0, (same_uri at.0 ∙ at.1.1.0, same_hash at.0 ∙ at.1.1.1)),
)

backend_index_insert-HasKey :
    (hash : ℕ) (uri : List ℕ) (i : ℕ) (b : BackendIndex) (m : Memory)
    → HasKey hash uri i m
    → HasKey hash uri i (backend_index_insert i b m).1
backend_index_insert-HasKey hash uri i b m at =
    let after = backend_index_insert_at i b m at.0 at.1.0 in
    (after.0, (after.1.0, (after.1.1.0 ∙ at.1.1.0, after.1.1.1.0 ∙ at.1.1.1)))

matches_self : (e : Entry) → matches e e.uri_hash e.uri ≡ true
unfolding matches
matches_self e = ap (λ t. t && bytes_eq e.uri e.uri) (==_self e.uri_hash) ∙ bytes_eq_self e.uri

-- The key at the head of a chain is found.
search-HasKey :
    (m : Memory) (buckets : List (Option ℕ)) (n hash : ℕ) (uri : List ℕ) (i : ℕ)
    → head_of buckets (bucket_of hash n) ≡ some i
    → HasKey hash uri i m
    → search m buckets n hash uri ≡ found i
search-HasKey m buckets n hash uri i head at = search_head m buckets n hash uri i at.0 head at.1.0 (
    subst (λ u. matches at.0 hash u ≡ true) at.1.1.0
      (subst (λ h. matches at.0 h at.0.uri ≡ true) at.1.1.1 (matches_self at.0)))

-- What an insertion into the global index gives.
abbrev IsHead : ℕ → ℕ → Entry → GlobalIndex → Bool × (GlobalIndex × Memory) → Type 0
IsHead b i e idx r =
    r.0 ≡ true
    → (head_of r.1.0.buckets b ≡ some i)
      × ((r.1.0.num_buckets ≡ idx.num_buckets)
          × ((next : Option ℕ) × (get_elem? r.1.1.entries i ≡ some (linked_to next e))))

insert_unless-IsHead :
    (w : Walk) (b i : ℕ) (e : Entry) (idx : GlobalIndex) (m : Memory)
    → b < length idx.buckets
    → get_elem? m.entries i ≡ some e
    → IsHead b i e idx (insert_unless w b i idx m)
unfolding insert_unless link
insert_unless-IsHead (found j) b i e idx m below there on = cc
insert_unless-IsHead stuck b i e idx m below there on = cc
insert_unless-IsHead missing b i e idx m below there on = (
  head_of-set idx.buckets b i below,
  (refl, (head_of idx.buckets b, update_entry_at i (linked_to (head_of idx.buckets b)) m e there)),
)

global_index_insert-IsHead :
    (i : ℕ) (e : Entry) (idx : GlobalIndex) (m : Memory)
    → bucket_of e.uri_hash idx.num_buckets < length idx.buckets
    → get_elem? m.entries i ≡ some e
    → IsHead (bucket_of e.uri_hash idx.num_buckets) i e idx (global_index_insert i idx m)
unfolding global_index_insert insert_entry
global_index_insert-IsHead i e idx m below there =
    let b = bucket_of e.uri_hash idx.num_buckets in
    subst (IsHead b i e idx) (ap (λ o. insert_entry o i idx m) (sym there)) (
      insert_unless-IsHead (search m idx.buckets idx.num_buckets e.uri_hash e.uri) b i e idx m below
        there)

allocated : (es : List Entry) (e : Entry) → get_elem? (es ++ e ∷ []) (length es) ≡ some e
allocated [] e = refl
allocated (x ∷ es) e = allocated es e

update_backend_index :
    (id : ℕ) (change : BackendInfo → BackendInfo) (mgr : Manager)
    → (update_backend id change mgr).global_index ≡ mgr.global_index
unfolding update_backend
update_backend_index id change mgr = on (get_elem? mgr.backends id)
  where
    on :
        (o : Option BackendInfo) → (replace_backend o id change mgr).global_index ≡ mgr.global_index
    on none = refl
    on (some b) = refl

-- A reference that is returned is to the entry that a search for the URI finds.
abbrev IsFindable : List ℕ → Option FdRef × (Manager × Memory) → Type 0
IsFindable uri r =
    (ref : FdRef)
    → r.0 ≡ some ref
    → (i : ℕ) × ((ref.entry ≡ some i)
        × (search r.1.1 r.1.0.global_index.buckets r.1.0.global_index.num_buckets
              (index_hash_string uri) uri
            ≡ found i))

abbrev HasBucket : List ℕ → Manager → Type 0
HasBucket uri mgr =
    bucket_of (index_hash_string uri) mgr.global_index.num_buckets < length mgr.global_index.buckets

nothing : (uri : List ℕ) (s : Manager × Memory) → IsFindable uri (none, s)
nothing uri s ref e = cc

pick :
    (b : Bool) (uri : List ℕ) (x y : Option FdRef × (Manager × Memory))
    → (b ≡ true → IsFindable uri x)
    → IsFindable uri y
    → IsFindable uri (if b then x else y)
pick true uri x y h k = h refl
pick false uri x y h k = k

keep_created-IsFindable :
    (i fd id : ℕ) (backend : BackendInfo) (uri : List ℕ) (mgr : Manager) (m : Memory)
    → head_of mgr.global_index.buckets
        (bucket_of (index_hash_string uri) mgr.global_index.num_buckets)
      ≡ some i
    → HasKey (index_hash_string uri) uri i m
    → IsFindable uri (keep_created i fd id backend mgr m)
unfolding keep_created index_entry_get
keep_created-IsFindable i fd id backend uri mgr m head at ref e =
    let hash = index_hash_string uri in
    let inserted = backend_index_insert i backend.index m in
    let opened : Memory =
      update_entry i (λ e. record e { fd = some fd; fd_refcount = 1 }) inserted.1 in
    let held : Memory =
      update_entry i (λ e. record e { entry_refcount = increment e.entry_refcount }) opened in
    let key =
      update_entry-HasKey hash uri i (λ e. record e { entry_refcount = increment e.entry_refcount })
        opened (λ e. refl) (λ e. refl)
        (update_entry-HasKey hash uri i (λ e. record e { fd = some fd; fd_refcount = 1 }) inserted.1
          (λ e. refl) (λ e. refl) (backend_index_insert-HasKey hash uri i backend.index m at)) in
    (
      i,
      (
        sym (ap {B = Option ℕ} (λ (o : Option FdRef). elim o [ none ↦ none | some r ↦ r.entry ]) e),
        subst (λ (g : GlobalIndex). search held g.buckets g.num_buckets hash uri ≡ found i)
            (sym
              (update_backend_index id (λ b. record (count_created b) { index = inserted.0 }) mgr))
            (search-HasKey held mgr.global_index.buckets mgr.global_index.num_buckets hash uri i
              head key),
      ),
    )

enter_object-IsFindable :
    (fd : ℕ) (req : CreateReq) (id : ℕ) (path : List ℕ) (backend : BackendInfo) (mgr : Manager)
    (m : Memory)
    → HasBucket req.uri mgr
    → IsFindable req.uri (enter_object fd req id path backend mgr m)
unfolding enter_object index_entry_create
enter_object-IsFindable fd req id path backend mgr m below =
    let i = length m.entries in
    let e = new_entry req id path in
    let hash = index_hash_string req.uri in
    let added : Memory = allocate e m in
    let inserted = global_index_insert i mgr.global_index added in
    pick inserted.0 req.uri _ _
      (λ on.
        let at =
          global_index_insert-IsHead i e mgr.global_index added below (allocated m.entries e) on in
        keep_created-IsFindable i fd id backend req.uri (record mgr { global_index = inserted.1.0 })
          inserted.1.1 (ap (λ n. head_of inserted.1.0.buckets (bucket_of hash n)) at.1.0 ∙ at.0)
          (linked_to at.1.1.0 e, (at.1.1.1, (refl, refl))))
      (nothing req.uri (
        record mgr { global_index = inserted.1.0 },
        call (unlink path) (call (close fd) (index_entry_put i inserted.1.1)),
      ))

create_file-IsFindable :
    (opened : Option ℕ) (req : CreateReq) (id : ℕ) (path : List ℕ) (backend : BackendInfo)
    (mgr : Manager) (m : Memory)
    → HasBucket req.uri mgr
    → IsFindable req.uri (create_file opened req id path backend mgr m)
unfolding create_file
create_file-IsFindable none req id path backend mgr m below =
    nothing req.uri (mgr, call (open_create path) m)
create_file-IsFindable (some fd) req id path backend mgr m below =
    enter_object-IsFindable fd req id path backend mgr (call (open_create path) m) below

create_on-IsFindable :
    (o : Option BackendInfo) (made : List ℕ → Bool) (opened : Option ℕ) (req : CreateReq) (id : ℕ)
    (mgr : Manager) (m : Memory)
    → HasBucket req.uri mgr
    → IsFindable req.uri (create_on o made opened req id mgr m)
unfolding create_on
create_on-IsFindable none made opened req id mgr m below = nothing req.uri (mgr, m)
create_on-IsFindable (some backend) made opened req id mgr m below =
    let path = object_path backend.mount_path req.uri in
    let parents = make_parents made (before_last_slash path) m in
    pick (may_create req backend) req.uri _ _
      (λ may.
        pick parents.0 req.uri _ _
          (λ on. create_file-IsFindable opened req id path backend mgr parents.1 below)
          (nothing req.uri (mgr, parents.1)))
      (nothing req.uri (mgr, m))

create_at-IsFindable :
    (target : Option ℕ) (made : List ℕ → Bool) (opened : Option ℕ) (req : CreateReq) (mgr : Manager)
    (m : Memory)
    → HasBucket req.uri mgr
    → IsFindable req.uri (create_at target made opened req mgr m)
unfolding create_at
create_at-IsFindable none made opened req mgr m below = nothing req.uri (mgr, m)
create_at-IsFindable (some id) made opened req mgr m below =
    create_on-IsFindable (backend_manager_get_backend mgr (some id)) made opened req id mgr m below

-- What a get returns for an entry that a search finds.
get_object-found :
    (answer : Opened) (later : ℕ) (uri : List ℕ) (i : ℕ) (mgr : Manager) (m : Memory)
    → search m mgr.global_index.buckets mgr.global_index.num_buckets (index_hash_string uri) uri
      ≡ found i
    → (backend_get_object answer later uri mgr m).0
      ≡ some (record { entry = some i; fd = opened_fd answer.rdwr answer.rdonly; generation = 0 })
unfolding backend_get_object get_found find global_index_lookup look_up
get_object-found answer later uri i mgr m hit =
    let counted : GlobalIndex = record mgr.global_index {
      stat_lookups = (mgr.global_index.stat_lookups + 1) % 2 ^ 64;
    } in
    ap
      (λ (w : Walk).
        let looked = look_up w answer.rdwr answer.rdonly answer.now counted m in
        (get_found looked.0 later (record mgr { global_index = looked.1.0 }) looked.1.1).0)
      hit
    ∙ ap some (refer_fd answer.rdwr answer.rdonly answer.now i m)

-- An object that was created is found: a get for its URI returns a reference to the entry that the
-- creation returned, whatever stood in the bucket and whichever attempt to open the file succeeds.
-- The bucket of the URI is one of the index.
pub backend_get_object-backend_create_object :
    (made : List ℕ → Bool) (opened : Option ℕ) (req : CreateReq) (mgr : Manager) (m : Memory)
    (ref : FdRef) (answer : Opened) (later : ℕ)
    → bucket_of (index_hash_string req.uri) mgr.global_index.num_buckets
      < length mgr.global_index.buckets
    → (backend_create_object made opened req mgr m).0 ≡ some ref
    → (backend_get_object answer later req.uri
        (backend_create_object made opened req mgr m).1.0
        (backend_create_object made opened req mgr m).1.1).0
      ≡ some
          (record { entry = ref.entry; fd = opened_fd answer.rdwr answer.rdonly; generation = 0 })
unfolding backend_create_object
backend_get_object-backend_create_object made opened req mgr m ref answer later below returned =
    let s = create_at (target_of req mgr) made opened req mgr m in
    let hit = create_at-IsFindable (target_of req mgr) made opened req mgr m below ref returned in
    get_object-found answer later req.uri hit.0 s.1.0 s.1.1 hit.1.1
    ∙ ap {B = Option FdRef}
        (λ (o : Option ℕ).
          some (record { entry = o; fd = opened_fd answer.rdwr answer.rdonly; generation = 0 }))
        (sym hit.1.0)
