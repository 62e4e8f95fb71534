-- ===== src/Index/Tables/References.antt =====
-- A lookup in the global index and the release of its reference.
use objmapper.Base.{
  ℕ, ◌+◌, ◌%◌, ◌^◌, ◌<◌, ◌≡◌, refl, ap, ◌∙◌, false, Option, none, some, List, get_elem?, ◌==◌,
  arith,
}
use objmapper.Index.Entry.{
  Entry, Memory, FdRef, index_entry_get, index_entry_record_access, fd_ref_release, increment,
  decrement, index_hash_string,
}
use objmapper.Index.Entry.Balance.{update_entry_at, fd_ref_release_at, released}
use objmapper.Index.Tables.{
  GlobalIndex, found, search, look_up, global_index_lookup, refer, open_object, count_fd, path_of,
}

abbrev pub seen : ℕ → Entry → Entry
seen now e = record e { access_count = (e.access_count + 1) % 2 ^ 64; last_access = now }

abbrev pub taken : Entry → Entry
taken e = record e { entry_refcount = increment e.entry_refcount }

abbrev pub counted : Option ℕ → Entry → Entry
counted none e = e
counted (some fd) e = record e { fd_refcount = increment e.fd_refcount }

abbrev pub opened_fd : Option ℕ → Option ℕ → Option ℕ
opened_fd (some fd) rdonly = some fd
opened_fd none rdonly = rdonly

open_entries :
    (rdwr rdonly : Option ℕ) (path : List ℕ) (m : Memory)
    → (open_object rdwr rdonly path m).1.entries ≡ m.entries
unfolding open_object
open_entries (some fd) rdonly path m = refl
open_entries none rdonly path m = refl

open_descriptor :
    (rdwr rdonly : Option ℕ) (path : List ℕ) (m : Memory)
    → (open_object rdwr rdonly path m).0 ≡ opened_fd rdwr rdonly
unfolding open_object
open_descriptor (some fd) rdonly path m = refl
open_descriptor none rdonly path m = refl

count_fd_at :
    (fd : Option ℕ) (i : ℕ) (m : Memory) (e : Entry)
    → get_elem? m.entries i ≡ some e
    → get_elem? (count_fd fd i m).entries i ≡ some (counted fd e)
count_fd_at none i m e there = there
count_fd_at (some fd) i m e there =
    update_entry_at i (λ x. record x { fd_refcount = increment x.fd_refcount }) m e there

pub refer_fd :
    (rdwr rdonly : Option ℕ) (now i : ℕ) (m : Memory)
    → (refer rdwr rdonly now i m).0
      ≡ record { entry = some i; fd = opened_fd rdwr rdonly; generation = 0 }
unfolding refer
refer_fd rdwr rdonly now i m =
    ap {B = FdRef} (λ (fd : Option ℕ). record { entry = some i; fd = fd; generation = 0 })
      (open_descriptor rdwr rdonly _ (index_entry_get i m))

pub refer_at :
    (rdwr rdonly : Option ℕ) (now i : ℕ) (m : Memory) (e : Entry)
    → get_elem? m.entries i ≡ some e
    → get_elem? (refer rdwr rdonly now i m).1.entries i
      ≡ some (counted (opened_fd rdwr rdonly) (seen now (taken e)))
unfolding refer index_entry_get index_entry_record_access
refer_at rdwr rdonly now i m e there =
    let held = index_entry_get i m in
    let path = path_of (get_elem? held.entries i) in
    let opened = (open_object rdwr rdonly path held).1 in
    let there_opened =
      ap (λ xs. get_elem? xs i) (open_entries rdwr rdonly path held)
      ∙ update_entry_at i taken m e there in
    ap (λ fd. get_elem? (count_fd fd i (index_entry_record_access now i opened)).entries i)
      (open_descriptor rdwr rdonly path held)
    ∙ count_fd_at (opened_fd rdwr rdonly) i (index_entry_record_access now i opened)
        (seen now (taken e)) (update_entry_at i (seen now) opened (taken e) there_opened)

-- What a lookup and a release together do to an entry.
pub record IsBalanced (before after : Entry) : Type 0 where
  pub entry_refcount : after.entry_refcount ≡ before.entry_refcount
  pub fd_refcount : after.fd_refcount ≡ before.fd_refcount
  pub access_count : after.access_count ≡ (before.access_count + 1) % 2 ^ 64
  pub fd : after.fd ≡ before.fd
  pub live : after.live ≡ before.live

back : (n : ℕ) → n < 2 ^ 32 → decrement (increment n) ≡ n
back n h = omega arith

balanced :
    (fd : Option ℕ) (now : ℕ) (e : Entry)
    → e.entry_refcount < 2 ^ 32
    → e.fd_refcount < 2 ^ 32
    → IsBalanced e (released fd (counted fd (seen now (taken e))))
balanced none now e h h_fd = record {
  entry_refcount = back e.entry_refcount h;
  fd_refcount = refl;
  access_count = refl;
  fd = refl;
  live = refl;
}
balanced (some fd) now e h h_fd = record {
  entry_refcount = back e.entry_refcount h;
  fd_refcount = back e.fd_refcount h_fd;
  access_count = refl;
  fd = refl;
  live = refl;
}

more_than_one :
    (fd : Option ℕ) (now : ℕ) (e : Entry)
    → 0 < e.entry_refcount
    → e.entry_refcount + 1 < 2 ^ 32
    → ((counted fd (seen now (taken e))).entry_refcount == 1) ≡ false
more_than_one none now e h bound = ground arith
more_than_one (some fd) now e h bound = ground arith

-- A lookup that finds an entry gives a reference, and its release leaves the entry with the counts
-- and the descriptor that it had, alive, and with one access more, whichever way its file could be
-- opened. The entry was held already, and its counts stay below 2 ^ 32.
pub fd_ref_release-global_index_lookup :
    (rdwr rdonly : Option ℕ) (now : ℕ) (uri : List ℕ) (idx : GlobalIndex) (m : Memory) (i : ℕ)
    (e : Entry)
    → search m idx.buckets idx.num_buckets (index_hash_string uri) uri ≡ found i
    → get_elem? m.entries i ≡ some e
    → 0 < e.entry_refcount
    → e.entry_refcount + 1 < 2 ^ 32
    → e.fd_refcount < 2 ^ 32
    → (ref : FdRef) × (((global_index_lookup rdwr rdonly now uri idx m).0 ≡ some ref)
        × ((after : Entry) × ((get_elem?
                  (fd_ref_release ref (global_index_lookup rdwr rdonly now uri idx m).1.1).1.entries
                  i
                ≡ some after)
              × IsBalanced e after)))
unfolding global_index_lookup look_up
fd_ref_release-global_index_lookup rdwr rdonly now uri idx m i e hit there held bound bound_fd =
    let fd = opened_fd rdwr rdonly in
    let ref : FdRef = record { entry = some i; fd = fd; generation = 0 } in
    let looked = record idx { stat_lookups = (idx.stat_lookups + 1) % 2 ^ 64 } in
    let ran = ap (λ w. look_up w rdwr rdonly now looked m) hit in
    let there_referred = refer_at rdwr rdonly now i m e there in
    (
      ref,
      (
        ap (λ (r : Option FdRef × (GlobalIndex × Memory)). r.0) ran
            ∙ ap some (refer_fd rdwr rdonly now i m),
        (
          released fd (counted fd (seen now (taken e))),
          (
            ap
                  (λ (r : Option FdRef × (GlobalIndex × Memory)).
                    get_elem? (fd_ref_release ref r.1.1).1.entries i)
                  ran
                ∙ fd_ref_release_at i fd 0 (refer rdwr rdonly now i m).1
                    (counted fd (seen now (taken e))) there_referred
                    (more_than_one fd now e held bound),
            balanced fd now e (omega arith) bound_fd,
          ),
        ),
      ),
    )
