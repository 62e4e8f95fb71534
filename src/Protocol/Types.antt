-- ===== src/Protocol/Types.antt =====
-- lib/protocol/protocol.h and the connection structure of lib/protocol/protocol.c.
-- A C string or buffer is the list of its bytes; a pointer that may be NULL is an Option; a
-- descriptor that may be -1 is an Option.
use objmapper.Base.{ℕ, Bool, Option, List, [], ◌∷◌}

-- OBJM_MAGIC, "OBJM".
abbrev pub magic : List ℕ
magic = b'O' ∷ b'B' ∷ b'J' ∷ b'M' ∷ []

abbrev pub version_1 : ℕ
version_1 = 0x01

abbrev pub version_2 : ℕ
version_2 = 0x02

abbrev pub cap_ooo_replies : ℕ
cap_ooo_replies = 0x0001

abbrev pub cap_pipelining : ℕ
cap_pipelining = 0x0002

abbrev pub cap_compression : ℕ
cap_compression = 0x0004

abbrev pub cap_multiplexing : ℕ
cap_multiplexing = 0x0008

abbrev pub msg_request : ℕ
msg_request = 0x01

abbrev pub msg_response : ℕ
msg_response = 0x02

abbrev pub msg_close : ℕ
msg_close = 0x03

abbrev pub msg_close_ack : ℕ
msg_close_ack = 0x04

abbrev pub status_ok : ℕ
status_ok = 0x00

abbrev pub mode_fdpass : ℕ
mode_fdpass = b'1'

abbrev pub mode_copy : ℕ
mode_copy = b'2'

abbrev pub mode_splice : ℕ
mode_splice = b'3'

abbrev pub meta_size : ℕ
meta_size = 0x01

abbrev pub meta_mtime : ℕ
meta_mtime = 0x02

abbrev pub meta_backend : ℕ
meta_backend = 0x05

abbrev pub max_uri_len : ℕ
max_uri_len = 4096

-- objm_request_t.
pub record Request : Type 0 where
  pub id : ℕ
  pub flags : ℕ
  pub mode : ℕ
  pub uri : List ℕ
  pub uri_len : ℕ

-- objm_response_t.
pub record Response : Type 0 where
  pub request_id : ℕ
  pub status : ℕ
  pub fd : Option ℕ
  pub content_len : ℕ
  pub metadata : Option (List ℕ)
  pub metadata_len : ℕ
  pub error_msg : Option (List ℕ)

-- objm_hello_t.
pub record Hello : Type 0 where
  pub capabilities : ℕ
  pub max_pipeline : ℕ
  pub backend_parallelism : ℕ

-- objm_params_t.
pub record Params : Type 0 where
  pub version : ℕ
  pub capabilities : ℕ
  pub max_pipeline : ℕ
  pub backend_parallelism : ℕ

-- objm_callbacks_t: four function pointers, each named by a number.
pub record Callbacks : Type 0 where
  pub on_send_ready : Option ℕ
  pub on_response : Option ℕ
  pub on_error : Option ℕ
  pub on_close : Option ℕ

-- What travels on the socket: a byte, or the byte 'X' that carries a descriptor as SCM_RIGHTS.
pub data Cell : Type 0 where
  byte : ℕ → Cell
  rights : ℕ → Cell

-- The texts that set_error writes into `conn->error`.
pub data ErrorText : Type 0 where
  no_error hello_not_sent ack_not_received ack_bad_magic version_mismatch : ErrorText
  v1_request_not_sent v2_request_not_sent v1_header_not_received v2_header_not_received : ErrorText
  metadata_not_received fd_not_received peek_failed hello_not_received hello_invalid : ErrorText
  ack_not_sent uri_too_long : ErrorText
  unexpected_type : ℕ → ErrorText

-- struct objm_connection. The socket `fd` is the three fields `input` (what the peer has sent and
-- this side has not read), `output` (what this side has sent) and `room` (how many more bytes the
-- kernel takes before a write fails). `pending` holds `pending_capacity` slots.
pub record Connection : Type 0 where
  pub input : List Cell
  pub output : List Cell
  pub room : ℕ
  pub version : ℕ
  pub params : Params
  pub is_server : Bool
  pub next_request_id : ℕ
  pub pending : List (Option Response)
  pub pending_capacity : ℕ
  pub callbacks : Callbacks
  pub user_data : Option ℕ
  pub error : ErrorText

-- What a call returns: 0 with its out-parameter, 1, or -1. `stuck` is no C value: the loop of
-- `client_recv_response_for` ran out of fuel.
pub data Outcome {ℓ} (A : Type ℓ) : Type ℓ where
  done : A → Outcome A
  closing : Outcome A
  failed : Outcome A
  stuck : Outcome A
