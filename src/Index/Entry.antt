-- ===== src/Index/Entry.antt =====
-- lib/index/index.c: entries, which live in a memory that addresses them by number, and references
-- to descriptors. Operations follow one another, so a compare-and-exchange of a value that was just
-- read succeeds. An atomic_int is its 32 bits.
pub mod Balance
use objmapper.Base.{
  ℕ, ◌+◌, ◌-◌, ◌*◌, ◌/◌, ◌%◌, ◌^◌, Bool, true, false, ◌&&◌, Option, none, some, List, [], ◌∷◌,
  get_elem?, set, ltb, ◌==◌, bit_or, if◌then◌else◌,
}
use Prim.Native.Nat.{bit_xor}

-- struct index_entry, without its floating-point score. `live` ends with free.
pub record Entry : Type 0 where
  pub uri : List ℕ
  pub uri_hash : ℕ
  pub backend_id : ℕ
  pub backend_path : List ℕ
  pub fd : Option ℕ
  pub fd_refcount : ℕ
  pub fd_generation : ℕ
  pub size_bytes : ℕ
  pub mtime : ℕ
  pub flags : ℕ
  pub access_count : ℕ
  pub last_access : ℕ
  pub entry_refcount : ℕ
  pub next : Option ℕ
  pub live : Bool

-- The system calls that are made on descriptors and paths; sendfile names the destination, the
-- source and the count.
pub data Call : Type 0 where
  open_rdwr open_rdonly open_create unlink mkdir : List ℕ → Call
  close : ℕ → Call
  sendfile : ℕ → ℕ → ℕ → Call

-- The entries by address, and the calls made so far, the latest first.
pub record Memory : Type 0 where
  pub entries : List Entry
  pub calls : List Call

-- struct fd_ref.
pub record FdRef : Type 0 where
  pub entry : Option ℕ
  pub fd : Option ℕ
  pub generation : ℕ

hash_from : ℕ → List ℕ → ℕ
hash_from hash [] = hash
hash_from hash (c ∷ str) = hash_from (bit_xor hash c * 1099511628211 % 2 ^ 64) str

unfoldable pub index_hash_string : List ℕ → ℕ
unfolding hash_from
index_hash_string str = hash_from 14695981039346656037 str

-- `n |= n >> k`
abbrev fold_right : ℕ → ℕ → ℕ
fold_right k n = bit_or n (n / 2 ^ k)

unfoldable pub index_next_power_of_2 : ℕ → ℕ
index_next_power_of_2 n =
    let less = (n + (2 ^ 64 - 1)) % 2 ^ 64 in
    (fold_right 32 (fold_right 16 (fold_right 8 (fold_right 4 (fold_right 2 (fold_right 1 less)))))
      + 1)
    % 2 ^ 64

unfoldable pub index_entry_create : List ℕ → ℕ → List ℕ → Entry
index_entry_create uri backend_id backend_path = record {
  uri = uri;
  uri_hash = index_hash_string uri;
  backend_id = backend_id;
  backend_path = backend_path;
  fd = none;
  fd_refcount = 0;
  fd_generation = 0;
  size_bytes = 0;
  mtime = 0;
  flags = 0;
  access_count = 0;
  last_access = 0;
  entry_refcount = 1;
  next = none;
  live = true;
}

-- atomic_fetch_add and atomic_fetch_sub of 1.
abbrev pub increment : ℕ → ℕ
increment n = (n + 1) % 2 ^ 32

abbrev pub decrement : ℕ → ℕ
decrement n = (n + (2 ^ 32 - 1)) % 2 ^ 32

abbrev pub update_entry : ℕ → (Entry → Entry) → Memory → Memory
update_entry i change m = record m {
  entries = elim (get_elem? m.entries i) [
    | none ↦ m.entries
    | some entry ↦ set m.entries i (change entry)
  ];
}

abbrev pub call : Call → Memory → Memory
call made m = record m { calls = made ∷ m.calls }

abbrev pub close_if : Option ℕ → Memory → Memory
close_if none m = m
close_if (some fd) m = call (close fd) m

unfoldable pub index_entry_get : ℕ → Memory → Memory
index_entry_get i m =
    update_entry i (λ e. record e { entry_refcount = increment e.entry_refcount }) m

-- The last reference frees the entry.
unfoldable pub put_entry : Option Entry → ℕ → Memory → Memory
put_entry none i m = m
put_entry (some entry) i m =
    let released =
      update_entry i (λ e. record e { entry_refcount = decrement e.entry_refcount }) m in
    if entry.entry_refcount == 1
    then close_if entry.fd (update_entry i (λ e. record e { live = false }) released)
    else released

unfoldable pub index_entry_put : ℕ → Memory → Memory
unfolding put_entry
index_entry_put i m = put_entry (get_elem? m.entries i) i m

-- What open returned.
unfoldable pub store_fd : Option ℕ → ℕ → Memory → Bool × Memory
store_fd none i m = (false, m)
store_fd (some fd) i m = (true, update_entry i (λ e. record e { fd = some fd }) m)

unfoldable pub open_entry : Option Entry → Option ℕ → ℕ → Memory → Bool × Memory
unfolding store_fd
open_entry none opened i m = (false, m)
open_entry (some entry) opened i m = elim entry.fd [
  | some fd ↦ (true, m)
  | none ↦ store_fd opened i (call (open_rdonly entry.backend_path) m)
]

-- Whether the descriptor of the entry is open.
unfoldable pub index_entry_open_fd : Option ℕ → ℕ → Memory → Bool × Memory
unfolding open_entry
index_entry_open_fd opened i m = open_entry (get_elem? m.entries i) opened i m

-- A descriptor in use stays; `refcount > 0` is on 32 bits with a sign.
unfoldable pub close_entry : Option Entry → ℕ → Memory → Memory
close_entry none i m = m
close_entry (some entry) i m =
    if ltb 0 entry.fd_refcount && ltb entry.fd_refcount (2 ^ 31) then m else elim entry.fd [
      | none ↦ m
      | some fd ↦ call (close fd) (
          update_entry i (λ e. record e { fd = none; fd_generation = increment e.fd_generation }) m)
    ]

unfoldable pub index_entry_close_fd : ℕ → Memory → Memory
unfolding close_entry
index_entry_close_fd i m = close_entry (get_elem? m.entries i) i m

-- `now` is the monotonic time in microseconds.
unfoldable pub index_entry_record_access : ℕ → ℕ → Memory → Memory
index_entry_record_access now i m =
    update_entry i
      (λ e. record e { access_count = (e.access_count + 1) % 2 ^ 64; last_access = now }) m

-- The reference gets the entry's own descriptor.
unfoldable pub hold_fd : ℕ → FdRef → Memory → Option ℕ × (FdRef × Memory)
hold_fd i ref m = elim (get_elem? m.entries i) [
  | none ↦ (none, (ref, m))
  | some entry ↦ (
    entry.fd,
    (
      record ref { fd = entry.fd; generation = entry.fd_generation },
      update_entry i (λ e. record e { fd_refcount = increment e.fd_refcount }) m,
    ),
  )
]

unfoldable pub acquire_entry : Option ℕ → Option ℕ → FdRef → Memory → Option ℕ × (FdRef × Memory)
unfolding hold_fd
acquire_entry none opened ref m = (none, (ref, m))
acquire_entry (some i) opened ref m =
    let tried = index_entry_open_fd opened i m in
    if tried.0 then hold_fd i ref tried.1 else (none, (ref, tried.1))

unfoldable pub fd_ref_acquire : Option ℕ → FdRef → Memory → Option ℕ × (FdRef × Memory)
unfolding acquire_entry
fd_ref_acquire opened ref m = acquire_entry ref.entry opened ref m

abbrev pub release_fd : Option ℕ → ℕ → Memory → Memory
release_fd none i m = m
release_fd (some fd) i m =
    update_entry i (λ e. record e { fd_refcount = decrement e.fd_refcount }) (call (close fd) m)

unfoldable pub release_entry : Option ℕ → FdRef → Memory → FdRef × Memory
release_entry none ref m = (ref, m)
release_entry (some i) ref m =
    (record ref { entry = none; fd = none }, index_entry_put i (release_fd ref.fd i m))

unfoldable pub fd_ref_release : FdRef → Memory → FdRef × Memory
unfolding release_entry
fd_ref_release ref m = release_entry ref.entry ref m
