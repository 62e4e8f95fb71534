-- ===== src/Protocol/Close.antt =====
-- lib/protocol/protocol.c: objm_client_close and objm_server_send_close_ack, and the small
-- utilities on a connection.
pub mod Exchange
use objmapper.Base.{
  ℕ, Option, none, some, List, [], ◌∷◌, ◌++◌, get_or, be, ◌==◌, not, if◌then◌else◌, Bool, bit_and,
}
use objmapper.Protocol.Types.{Connection, Callbacks, Params, version_2, msg_close, msg_close_ack}
use objmapper.Protocol.Io.{M, pure, fail, ◌>>=◌, ◌>>◌, send_all, recv_all}

-- V1 has no close message.
unfoldable pub client_close : ℕ → M (Unit {0})
client_close reason c =
    if c.version == version_2
    then (do
      send_all (msg_close ∷ reason ∷ [])
      ack ← recv_all 6
      if not (get_or ack 0 0 == msg_close_ack) then fail else pure tt)
        c
    else pure tt c

-- type(1) + reserved(1) + outstanding(4)
unfoldable pub close_ack : ℕ → List ℕ
close_ack outstanding = msg_close_ack ∷ 0 ∷ be 4 outstanding

unfoldable pub server_send_close_ack : ℕ → M (Unit {0})
server_send_close_ack outstanding c =
    if not (c.version == version_2) then fail c else send_all (close_ack outstanding) c

pub get_params : Connection → Params
get_params c = c.params

pub has_capability : Connection → ℕ → Bool
has_capability c capability = not (bit_and c.params.capabilities capability == 0)

-- A NULL `callbacks` clears all four.
pub set_callbacks : Option Callbacks → Option ℕ → Connection → Connection
set_callbacks (some callbacks) user_data c = record c {
  callbacks = callbacks;
  user_data = user_data;
}
set_callbacks none user_data c = record c {
  callbacks = record { on_send_ready = none; on_response = none; on_error = none; on_close = none };
  user_data = user_data;
}
