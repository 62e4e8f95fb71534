-- ===== src/Protocol/Handshake/Agreement.antt =====
-- What the two sides of a handshake agree on.
use objmapper.Base.{
  ℕ, ◌-◌, ◌^◌, ◌≤◌, ◌<◌, ◌≡◌, refl, ap, ◌∙◌, sym, List, ◌++◌, map, ltb, ◌==◌, if◌then◌else◌, be,
  arith, of_be-be, if-not-true, true, bit_and, none, replicate, bytes_eq,
}
use objmapper.Protocol.Types.{
  Connection, Cell, byte, Hello, Params, done, version_2, cap_ooo_replies, hello_not_sent,
  ack_not_received, hello_not_received, ack_not_sent,
}
use objmapper.Protocol.Io.Transfer.{
  Sends-send_all, Sends-or_error, Takes-recv_all, Takes-or_error, peek_byte_lem,
}
use objmapper.Protocol.Handshake.{
  hello_message, ack_message, negotiate, answer_hello, accept_hello, accept_ack, ack_params,
  allocate_pending, client_hello, server_handshake,
}

-- The fields have the widths of objm_hello_t.
pub record IsHello (h : Hello) : Type 0 where
  pub capabilities_fit : h.capabilities < 2 ^ 16
  pub pipeline_fits : h.max_pipeline < 2 ^ 16

-- What both sides ask for: the common capabilities, the smaller pipeline, the server's parallelism.
unfoldable pub agreed : Hello → Hello → Params
agreed client server = record {
  version = version_2;
  capabilities = bit_and client.capabilities server.capabilities;
  max_pipeline =
      if ltb client.max_pipeline server.max_pipeline
      then client.max_pipeline
      else server.max_pipeline;
  backend_parallelism = server.backend_parallelism;
}

negotiate-hello_message :
    (client server : Hello)
    → IsHello client
    → negotiate server (hello_message client) ≡ agreed client server
unfolding negotiate hello_message agreed be
negotiate-hello_message client server w = rw (
  of_be-be 2 client.capabilities w.capabilities_fit,
  of_be-be 2 client.max_pipeline w.pipeline_fits,
)

accept_hello_lem :
    (p : Params) (s : Connection)
    → 10 ≤ s.room
    → accept_hello p s ≡ (
      done p,
      record s {
        output = s.output ++ map byte (ack_message p);
        room = s.room - 10;
        params = p;
        version = version_2;
      },
    )
unfolding accept_hello ack_message be
accept_hello_lem p s room = rw (
    (Sends-or_error ack_not_sent (Sends-send_all (ack_message p))).run (record s { params = p })
      room)

answer_hello_lem :
    (client server : Hello)
    → IsHello client
    → answer_hello server (hello_message client) ≡ accept_hello (agreed client server)
unfolding answer_hello bytes_eq hello_message
answer_hello_lem client server w = rw (negotiate-hello_message client server w)

-- A server that reads a client's hello returns and keeps what both ask for, answers with an
-- acknowledgement that says so, and goes on in V2.
pub server_handshake_lem :
    (client server : Hello) (s : Connection) (rest : List Cell)
    → IsHello client
    → s.is_server ≡ true
    → s.input ≡ map byte (hello_message client) ++ rest
    → 10 ≤ s.room
    → server_handshake server s ≡ (
      done (agreed client server),
      record s {
        input = rest;
        output = s.output ++ map byte (ack_message (agreed client server));
        room = s.room - 10;
        params = agreed client server;
        version = version_2;
      },
    )
unfolding server_handshake hello_message be
server_handshake_lem client server s rest w srv e room =
    if-not-true s.is_server _ _ srv
    ∙ rw (
      peek_byte_lem (byte b'O') _ s e,
      (Takes-or_error hello_not_received (Takes-recv_all 9 (hello_message client) refl)).run s rest
          e,
      answer_hello_lem client server w,
      accept_hello_lem (agreed client server) (record s { input = rest }) room,
    )

-- The client's side of the pending array.
abbrev with_params : Params → Connection → Connection
with_params p c =
    if bit_and p.capabilities cap_ooo_replies == 0 then record c { params = p } else record c {
      params = p;
      pending_capacity = p.max_pipeline;
      pending = replicate p.max_pipeline none;
    }

pub record IsParams (p : Params) : Type 0 where
  pub is_v2 : p.version ≡ version_2
  pub capabilities_fit : p.capabilities < 2 ^ 16
  pub pipeline_fits : p.max_pipeline < 2 ^ 16

accept_ack_lem :
    (p : Params) (c : Connection)
    → IsParams p
    → accept_ack (ack_message p) c ≡ (done p, with_params p c)
unfolding accept_ack ack_message be bytes_eq ack_params allocate_pending
accept_ack_lem p c w =
    let v2 : record p { version = version_2 } ≡ p =
      ap (λ (v : ℕ). record p { version = v }) (sym w.is_v2) in
    rw (of_be-be 2 p.capabilities w.capabilities_fit, of_be-be 2 p.max_pipeline w.pipeline_fits, v2)

-- A client that reads the server's acknowledgement has sent its hello, and returns and keeps the
-- parameters that the server announced, with a cleared slot for each request in flight where
-- replies may come out of order.
pub client_hello_lem :
    (hello : Hello) (p : Params) (c : Connection) (rest : List Cell)
    → IsParams p
    → c.version ≡ version_2
    → c.input ≡ map byte (ack_message p) ++ rest
    → 9 ≤ c.room
    → client_hello hello c ≡ (
      done p,
      with_params p (record c {
        input = rest;
        output = c.output ++ map byte (hello_message hello);
        room = c.room - 9;
      }),
    )
unfolding client_hello hello_message ack_message be
client_hello_lem hello p c rest w v e room =
    if-not-true (c.version == version_2) _ _ (ground arith)
    ∙ rw (
      (Sends-or_error hello_not_sent (Sends-send_all (hello_message hello))).run c room,
      (Takes-or_error ack_not_received (Takes-recv_all 10 (ack_message p) refl)).run
          (record c { output = c.output ++ map byte (hello_message hello); room = c.room - 9 }) rest
          e,
      accept_ack_lem p _ w,
    )
