-- ===== src/Protocol/Handshake.antt =====
-- lib/protocol/protocol.c: objm_client_create, objm_server_create, objm_client_hello and
-- objm_server_handshake. What calloc returns is taken to be there.
pub mod Silent
pub mod Agreement
use objmapper.Base.{
  ℕ, ◌+◌, Option, none, some, List, [], ◌∷◌, ◌++◌, take, get_or, slice, be, of_be, ltb, ◌==◌, not,
  ◌||◌, if◌then◌else◌, Bool, true, false, bit_and, bytes_eq, replicate,
}
use objmapper.Protocol.Types.{
  Connection, Cell, Hello, Params, Response, Callbacks, no_error, hello_not_sent, ack_not_received,
  ack_bad_magic, version_mismatch, peek_failed, hello_not_received, hello_invalid, ack_not_sent,
  magic, version_1, version_2, cap_ooo_replies,
}
use objmapper.Protocol.Io.{
  M, pure, fail, fail_with, or_error, ◌>>=◌, ◌>>◌, send_all, recv_all, peek_byte,
}

abbrev no_callbacks : Callbacks
no_callbacks = record { on_send_ready = none; on_response = none; on_error = none; on_close = none }

-- A cleared connection over a socket, given by what can be read and how much can be written.
abbrev cleared : List Cell → ℕ → Connection
cleared input room = record {
  input = input;
  output = [];
  room = room;
  version = 0;
  params = record { version = 0; capabilities = 0; max_pipeline = 0; backend_parallelism = 0 };
  is_server = false;
  next_request_id = 0;
  pending = [];
  pending_capacity = 0;
  callbacks = no_callbacks;
  user_data = none;
  error = no_error;
}

unfoldable pub client_create : List Cell → ℕ → ℕ → Connection
client_create input room version = record (cleared input room) {
  version = version;
  next_request_id = 1;
  params = record {
    version = version;
    capabilities = 0;
    max_pipeline = 1;
    backend_parallelism = 0;
  };
}

unfoldable pub server_create : List Cell → ℕ → Connection
server_create input room = record (cleared input room) { is_server = true }

abbrev modify : (Connection → Connection) → M (Unit {0})
modify f c = pure tt (f c)

-- magic(4) + version(1) + caps(2) + max_pipeline(2)
unfoldable pub hello_message : Hello → List ℕ
hello_message hello = magic ++ version_2 ∷ be 2 hello.capabilities ++ be 2 hello.max_pipeline

-- The pending array of the client, allocated where replies may come out of order.
allocate_pending : Params → Connection → Connection
allocate_pending p c =
    if bit_and p.capabilities cap_ooo_replies == 0
    then c
    else record c { pending_capacity = p.max_pipeline; pending = replicate p.max_pipeline none }

-- magic(4) + version(1) + caps(2) + max_pipeline(2) + backend_parallelism(1)
ack_params : List ℕ → Params
ack_params ack = record {
  version = version_2;
  capabilities = of_be (slice 5 2 ack);
  max_pipeline = of_be (slice 7 2 ack);
  backend_parallelism = get_or ack 9 0;
}

accept_ack : List ℕ → M Params
unfolding ack_params allocate_pending
accept_ack ack =
    if not (bytes_eq (take 4 ack) magic)
    then fail_with ack_bad_magic
    else if not (get_or ack 4 0 == version_2)
    then fail_with version_mismatch
    else (do
      modify (λ c. allocate_pending (ack_params ack) (record c { params = ack_params ack }))
      pure (ack_params ack))

unfoldable pub client_hello : Hello → M Params
unfolding accept_ack
client_hello hello c =
    if not (c.version == version_2)
    then fail c
    else (do
      or_error (send_all (hello_message hello)) hello_not_sent
      ack ← or_error (recv_all 10) ack_not_received
      accept_ack ack)
        c

-- The capabilities that both sides have, and the smaller pipeline.
negotiate : Hello → List ℕ → Params
negotiate hello msg =
    let client_pipeline = of_be (slice 7 2 msg) in
    record {
      version = version_2;
      capabilities = bit_and (of_be (slice 5 2 msg)) hello.capabilities;
      max_pipeline =
          if ltb client_pipeline hello.max_pipeline then client_pipeline else hello.max_pipeline;
      backend_parallelism = hello.backend_parallelism;
    }

unfoldable pub ack_message : Params → List ℕ
ack_message p =
    magic ++ version_2 ∷ be 2 p.capabilities ++ be 2 p.max_pipeline ++ p.backend_parallelism ∷ []

accept_hello : Params → M Params
accept_hello p = do
  modify (λ c. record c { params = p })
  or_error (send_all (ack_message p)) ack_not_sent
  modify (λ c. record c { version = version_2 })
  pure p

answer_hello : Hello → List ℕ → M Params
unfolding negotiate accept_hello
answer_hello hello msg =
    if not (bytes_eq (take 4 msg) magic) || not (get_or msg 4 0 == version_2)
    then fail_with hello_invalid
    else accept_hello (negotiate hello msg)

-- A first byte other than 'O' is a V1 client, which sends no handshake.
v1_params : Params
v1_params = record {
  version = version_1;
  capabilities = 0;
  max_pipeline = 1;
  backend_parallelism = 1;
}

unfoldable pub server_handshake : Hello → M Params
unfolding answer_hello v1_params
server_handshake hello c =
    if not c.is_server
    then fail c
    else (do
      first_byte ← or_error peek_byte peek_failed
      if first_byte == b'O'
          then (do msg ← or_error (recv_all 9) hello_not_received; answer_hello hello msg)
          else (do
            modify (λ c. record c { version = version_1; params = v1_params })
            pure v1_params))
        c
