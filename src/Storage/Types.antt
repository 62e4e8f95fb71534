-- ===== src/Storage/Types.antt =====
-- lib/storage/storage.h and the structures of lib/storage/storage.c. A C string is the list of its
-- bytes, without the 0 at its end.
use objmapper.Base.{ℕ, Bool, false, Option, none, some, List, []}

-- storage_config_t.
pub record Config : Type 0 where
  pub backing_dir : Option (List ℕ)
  pub cache_dir : Option (List ℕ)
  pub cache_limit : ℕ
  pub hash_size : ℕ

-- object_info_t.
pub record Info : Type 0 where
  pub uri : List ℕ
  pub size : ℕ
  pub hits : ℕ
  pub is_cached : Bool

-- hash_entry_t; a chain of entries is a list, the head first.
pub record HashEntry : Type 0 where
  pub hash : ℕ
  pub slot_index : ℕ

-- object_slot_t. `backing_fd` is none for -1; `cache_mmap` is the address of the mapping.
pub record Slot : Type 0 where
  pub uri : List ℕ
  pub backing_path : List ℕ
  pub cache_path : List ℕ
  pub backing_fd : Option ℕ
  pub cache_mmap : Option ℕ
  pub size : ℕ
  pub hits : ℕ
  pub in_use : Bool

-- The system calls that the component makes.
pub data Call : Type 0 where
  mkdir : List ℕ → Call
  open_write open_read : List ℕ → Call
  write : List ℕ → ℕ → Call
  close : ℕ → Call
  dup : ℕ → Call
  mmap : ℕ → Call
  munmap : ℕ → ℕ → Call
  unlink : List ℕ → Call

-- The answers that the kernel gives to the calls of one operation: a descriptor from open, a count
-- from write, a descriptor from dup, an address from mmap; none is -1 or MAP_FAILED.
pub record Answers : Type 0 where
  pub opened : Option ℕ
  pub written : Option ℕ
  pub duplicate : Option ℕ
  pub mapped : Option ℕ

-- struct object_storage, and the system calls made so far, the latest first.
pub record Storage : Type 0 where
  pub backing_dir : List ℕ
  pub cache_dir : List ℕ
  pub cache_limit : ℕ
  pub cached_bytes : ℕ
  pub objects : List Slot
  pub capacity : ℕ
  pub count : ℕ
  pub hash_table : List (List HashEntry)
  pub hash_size : ℕ
  pub calls : List Call

-- errno; `of_system` is the number that a failed call left, `unset` where none is set.
pub data Errno : Type 0 where
  einval enoent enomem of_system unset : Errno

pub data Result {ℓ} (A : Type ℓ) : Type ℓ where
  done : A → Result A
  failed : Errno → Result A

-- A slot as calloc leaves it: its descriptor is 0.
abbrev pub cleared_slot : Slot
cleared_slot = record {
  uri = [];
  backing_path = [];
  cache_path = [];
  backing_fd = some 0;
  cache_mmap = none;
  size = 0;
  hits = 0;
  in_use = false;
}
