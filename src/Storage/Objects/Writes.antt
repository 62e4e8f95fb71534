-- ===== src/Storage/Objects/Writes.antt =====
-- The operations on a slot that is found, and what they keep.
use objmapper.Base.{ℕ, refl, Bool, true, false, Option, none, some, List, ◌==◌, if◌then◌else◌}
use objmapper.Storage.Types.{Answers, Storage, Result}
use objmapper.Storage.Objects.{
  end_write, begin_write, write_object, serve_fd, serve_opened, serve_slot, keep_mapping,
  map_opened, map_object, may_cache, slot_at, hit_slot,
}
use objmapper.Storage.Objects.Keeps.{Keeps, Keeps-trans, Keeps-call, Keeps-update_slot}

abbrev either {ℓ κ} :
    {A : Type ℓ} (P : A → Type κ) (b : Bool) {x y : A} → P x → P y → P (if b then x else y)
either P true p q = p
either P false p q = q

pub Keeps-self : (i : ℕ) (s : Storage) → Keeps i s s
Keeps-self i s = record {
  others = λ j ne. refl;
  held = λ j uri. refl;
  slots = refl;
  used = refl;
  table = refl;
  hash_size = refl;
  capacity = refl;
  count = refl;
}

Keeps-end_write :
    (written : Option ℕ) (i size : ℕ) (s : Storage) → Keeps i s (end_write written i size s).1
unfolding end_write
Keeps-end_write none i size s = Keeps-self i s
Keeps-end_write (some written) i size s =
    either (λ (r : Result (Unit {0}) × Storage). Keeps i s r.1) (written == size)
      (Keeps-update_slot i _ s (λ slot. (refl, refl))) (Keeps-self i s)

Keeps-begin_write :
    (opened written : Option ℕ) (i : ℕ) (bytes : List ℕ) (size : ℕ) (s : Storage)
    → Keeps i s (begin_write opened written i bytes size s).1
unfolding begin_write
Keeps-begin_write none written i bytes size s = Keeps-self i s
Keeps-begin_write (some fd) written i bytes size s =
    Keeps-trans (Keeps-trans (Keeps-call i _ s) (Keeps-call i _ _))
      (Keeps-end_write written i size _)

pub Keeps-write_object :
    (a : Answers) (i : ℕ) (uri bytes : List ℕ) (size : ℕ) (s : Storage)
    → Keeps i s (write_object a i uri bytes size s).1
unfolding write_object
Keeps-write_object a i uri bytes size s =
    Keeps-trans (Keeps-trans (Keeps-update_slot i _ s (λ slot. (refl, refl))) (Keeps-call i _ _))
      (Keeps-begin_write a.opened a.written i bytes size _)

pub Keeps-hit_slot : (i : ℕ) (s : Storage) → Keeps i s (hit_slot i s)
Keeps-hit_slot i s = Keeps-update_slot i _ s (λ slot. (refl, refl))

Keeps-serve_fd : (a : Answers) (i fd : ℕ) (s : Storage) → Keeps i s (serve_fd a i fd s).1
unfolding serve_fd
Keeps-serve_fd a i fd s = Keeps-trans (Keeps-hit_slot i s) (Keeps-call i _ _)

Keeps-serve_opened :
    (opened : Option ℕ) (a : Answers) (i : ℕ) (s : Storage)
    → Keeps i s (serve_opened opened a i s).1
unfolding serve_opened
Keeps-serve_opened none a i s = Keeps-update_slot i _ s (λ slot. (refl, refl))
Keeps-serve_opened (some fd) a i s =
    Keeps-trans (Keeps-update_slot i _ s (λ slot. (refl, refl))) (Keeps-serve_fd a i fd _)

pub Keeps-serve_slot :
    (fd : Option ℕ) (a : Answers) (i : ℕ) (s : Storage) → Keeps i s (serve_slot fd a i s).1
unfolding serve_slot
Keeps-serve_slot (some fd) a i s = Keeps-serve_fd a i fd s
Keeps-serve_slot none a i s = Keeps-trans (Keeps-call i _ s) (Keeps-serve_opened a.opened a i _)

-- The number of cached bytes is none of the fields that are kept.
pub Keeps-cached :
    (i n : ℕ) (s t : Storage) → Keeps i (record s { cached_bytes = n }) t → Keeps i s t
Keeps-cached i n s t k = record {
  others = k.others;
  held = k.held;
  slots = k.slots;
  used = k.used;
  table = k.table;
  hash_size = k.hash_size;
  capacity = k.capacity;
  count = k.count;
}

Keeps-keep_mapping : (mapped : Option ℕ) (i : ℕ) (s : Storage) → Keeps i s (keep_mapping mapped i s)
unfolding keep_mapping
Keeps-keep_mapping none i s = Keeps-self i s
Keeps-keep_mapping (some p) i s =
    Keeps-cached i _ s _ (Keeps-update_slot i _ _ (λ slot. (refl, refl)))

Keeps-map_opened :
    (opened mapped : Option ℕ) (i : ℕ) (s : Storage) → Keeps i s (map_opened opened mapped i s)
unfolding map_opened
Keeps-map_opened none mapped i s = Keeps-self i s
Keeps-map_opened (some fd) mapped i s =
    Keeps-trans (Keeps-trans (Keeps-call i _ s) (Keeps-keep_mapping mapped i _)) (Keeps-call i _ _)

Keeps-map_object : (a : Answers) (i : ℕ) (s : Storage) → Keeps i s (map_object a i s)
unfolding map_object
Keeps-map_object a i s = Keeps-trans (Keeps-call i _ s) (Keeps-map_opened a.opened a.mapped i _)

-- storage_get_mmap on the slot that it found.
pub Keeps-get_mmap :
    (a : Answers) (i : ℕ) (s : Storage)
    → Keeps i s (hit_slot i (if may_cache (slot_at s i) s then map_object a i s else s))
Keeps-get_mmap a i s =
    Keeps-trans
      (either (Keeps i s) (may_cache (slot_at s i) s) (Keeps-map_object a i s) (Keeps-self i s))
      (Keeps-hit_slot i _)
