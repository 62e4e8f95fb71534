-- ===== src/Backend/Types.antt =====
-- lib/backend/backend.h. Fields in floating point (watermarks, thresholds) are left out; so are the
-- locks. An identifier that may be -1 is an Option.
use objmapper.Base.{ℕ, ◌+◌, ◌-◌, ◌%◌, ◌^◌, Bool, Option, List, bit_and, ◌==◌, not}
use objmapper.Index.Tables.{GlobalIndex, BackendIndex}

-- backend_type_t.
pub data BackendType : Type 0 where
  memory nvme ssd hdd network : BackendType

-- migration_policy_t.
pub data MigrationPolicy : Type 0 where
  policy_none policy_hotness policy_capacity policy_hybrid : MigrationPolicy

abbrev pub flag_ephemeral_only : ℕ
flag_ephemeral_only = 1

abbrev pub flag_persistent : ℕ
flag_persistent = 2

abbrev pub flag_enabled : ℕ
flag_enabled = 4

abbrev pub flag_readonly : ℕ
flag_readonly = 8

abbrev pub flag_migration_src : ℕ
flag_migration_src = 16

abbrev pub flag_migration_dst : ℕ
flag_migration_dst = 32

-- INDEX_FLAG_EPHEMERAL and INDEX_FLAG_PERSISTENT, of an entry.
abbrev pub index_flag_ephemeral : ℕ
index_flag_ephemeral = 1

abbrev pub index_flag_persistent : ℕ
index_flag_persistent = 2

-- `flags & mask`, as a test.
unfoldable pub has_flag : ℕ → ℕ → Bool
has_flag flags mask = not (bit_and flags mask == 0)

-- backend_info_t.
pub record BackendInfo : Type 0 where
  pub id : ℕ
  pub kind : BackendType
  pub mount_path : List ℕ
  pub name : List ℕ
  pub flags : ℕ
  pub expected_latency_us : ℕ
  pub capacity_bytes : ℕ
  pub used_bytes : ℕ
  pub object_count : ℕ
  pub migration_policy : MigrationPolicy
  pub hotness_halflife_us : ℕ
  pub index : BackendIndex
  pub reads : ℕ
  pub writes : ℕ
  pub migrations_in : ℕ
  pub migrations_out : ℕ

-- backend_manager_t; num_backends is the length of the list.
pub record Manager : Type 0 where
  pub global_index : GlobalIndex
  pub backends : List BackendInfo
  pub max_backends : ℕ
  pub default_backend_id : Option ℕ
  pub ephemeral_backend_id : Option ℕ
  pub cache_backend_id : Option ℕ
  pub cache_running : Bool
  pub cache_check_interval_us : ℕ
  pub total_objects : ℕ
  pub total_bytes : ℕ

-- object_create_req_t.
pub record CreateReq : Type 0 where
  pub uri : List ℕ
  pub backend_id : Option ℕ
  pub ephemeral : Bool
  pub size_hint : ℕ
  pub flags : ℕ

-- object_metadata_t, without the score.
pub record Metadata : Type 0 where
  pub uri : List ℕ
  pub backend_id : ℕ
  pub fs_path : List ℕ
  pub size_bytes : ℕ
  pub mtime : ℕ
  pub flags : ℕ
  pub access_count : ℕ

-- What the kernel answers to one lookup: its two attempts to open the file, and the time.
pub record Opened : Type 0 where
  pub rdwr : Option ℕ
  pub rdonly : Option ℕ
  pub now : ℕ

-- A size_t or uint64_t sum and difference.
abbrev pub plus : ℕ → ℕ → ℕ
plus a b = (a + b) % 2 ^ 64

abbrev pub minus : ℕ → ℕ → ℕ
minus a b = (a + (2 ^ 64 - b % 2 ^ 64)) % 2 ^ 64
