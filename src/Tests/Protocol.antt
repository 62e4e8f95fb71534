-- ===== src/Tests/Protocol.antt =====
-- The protocol between concrete connections.
use objmapper.Base.{ℕ, ◌≡◌, refl, none, some, List, [], ◌∷◌, ◌++◌, map, replicate, be, arith}
use objmapper.Protocol.Types.{
  Connection, Cell, byte, rights, Request, Response, Hello, done, failed, version_2, msg_close,
}
use objmapper.Protocol.Io.{send_all, recv_all, recv_all, send_all}
use objmapper.Protocol.Io.Loop.{
  Event, ready, interrupted, recv_loop, send_loop, as_recv, as_send, recv_loop-recv_all,
  send_loop-send_all,
}
use objmapper.Protocol.Request.{client_send_request, server_recv_request, request_header_v2}
use objmapper.Protocol.Request.RoundTrip.{
  request_wire, as_received, server_recv_request-client_send_request,
}
use objmapper.Protocol.Response.{server_send_response, client_recv_response, response_header_v2}
use objmapper.Protocol.Response.RoundTrip.{
  response_wire, response_received, client_recv_response-server_send_response,
}
use objmapper.Protocol.Response.Desync.{client_recv_response_left_fd}
use objmapper.Protocol.Handshake.{client_create, server_create}
use objmapper.Protocol.Pending.{client_recv_response_for, keep_response, fill_slot}
use objmapper.Protocol.Pending.Matching.{
  IsMatched, Answers, cleared_slots, client_recv_response_for-Answers,
  client_recv_response_for-keep_response,
}
use objmapper.Protocol.Close.{client_close, server_send_close_ack}
use objmapper.Protocol.Close.Exchange.{
  client_close-server_send_close_ack, server_recv_request-client_close,
}
use objmapper.Protocol.Metadata.{Entry, metadata_create, metadata_parse}
use objmapper.Protocol.Metadata.Parse.{entries_wire}
use objmapper.Protocol.Metadata.Build.{add_entries, metadata_parse-add_entries}

-- A V2 connection of either side, with an input and room for 100 cells.
abbrev peer : List Cell → Connection
unfolding server_create
peer input = record (server_create input 100) { version = version_2 }

abbrev get_object : Request
get_object = record { id = 7; flags = 1; mode = b'1'; uri = b'/' ∷ b'a' ∷ []; uri_len = 2 }

server_recv_request-client_send_request_example :
    server_recv_request (peer ((client_send_request get_object (peer [])).1.output ++ byte 9 ∷ []))
    ≡ (done (as_received version_2 get_object), peer (byte 9 ∷ []))
unfolding request_wire request_header_v2 be server_create
server_recv_request-client_send_request_example =
    server_recv_request-client_send_request get_object (peer [])
      (peer ((client_send_request get_object (peer [])).1.output ++ byte 9 ∷ [])) (byte 9 ∷ [])
      (omega arith) refl refl (omega arith) refl

abbrev found : Response
found = record {
  request_id = 3;
  status = 0;
  fd = some 5;
  content_len = 0;
  metadata = some (1 ∷ 2 ∷ 3 ∷ []);
  metadata_len = 2;
  error_msg = none;
}

client_recv_response-server_send_response_example :
    client_recv_response (peer ((server_send_response found (peer [])).1.output ++ byte 9 ∷ []))
    ≡ (done (response_received version_2 found), peer (byte 9 ∷ []))
unfolding response_wire response_header_v2 be server_create
client_recv_response-server_send_response_example =
    client_recv_response-server_send_response found (peer [])
      (peer ((server_send_response found (peer [])).1.output ++ byte 9 ∷ [])) (byte 9 ∷ [])
      (record {
        id_fits = omega arith;
        content_fits = omega arith;
        metadata_len_fits = omega arith;
        metadata_fits = omega arith;
        fd_agrees = (refl, refl);
      })
      refl refl (omega arith) refl

-- The same object, announced with its length.
abbrev announced : Response
announced = record found { content_len = 4096 }

client_recv_response_left_fd_example :
    client_recv_response (peer ((server_send_response announced (peer [])).1.output ++ byte 9 ∷ []))
    ≡ (
      done (response_received version_2 (record announced { fd = none })),
      peer (rights 5 ∷ byte 9 ∷ []),
    )
unfolding response_wire response_header_v2 be server_create
client_recv_response_left_fd_example =
    client_recv_response_left_fd announced 5 (peer [])
      (peer ((server_send_response announced (peer [])).1.output ++ byte 9 ∷ [])) (byte 9 ∷ [])
      (record {
        id_fits = omega arith;
        content_fits = omega arith;
        metadata_len_fits = omega arith;
        metadata_fits = omega arith;
      })
      refl refl (omega arith) refl refl (omega arith) refl

abbrev pipelining : Hello
pipelining = record { capabilities = 3; max_pipeline = 100; backend_parallelism = 0 }

abbrev modest : Hello
modest = record { capabilities = 9; max_pipeline = 16; backend_parallelism = 2 }

-- The hello of the one and the acknowledgement of the other, as bytes.
abbrev hello_server : Connection
unfolding server_create
hello_server =
    server_create (map byte (b'O' ∷ b'B' ∷ b'J' ∷ b'M' ∷ (2 ∷ 0 ∷ 3 ∷ 0 ∷ 100 ∷ [])) ++ []) 100

abbrev hello_client : Connection
unfolding client_create
hello_client =
    client_create (map byte (b'O' ∷ b'B' ∷ b'J' ∷ b'M' ∷ (2 ∷ 0 ∷ 1 ∷ 0 ∷ 16 ∷ 2 ∷ [])) ++ []) 100
      version_2

abbrev waiting_client : Connection
waiting_client = record (peer (map byte (1 ∷ 2 ∷ []))) {
  pending = replicate 4 none;
  pending_capacity = 4;
}

waiting_client-IsMatched : IsMatched waiting_client
waiting_client-IsMatched = record { sized = refl; matched = cleared_slots 4 }

client_recv_response_for-Answers_example : Answers 3 (client_recv_response_for 3 waiting_client)
client_recv_response_for-Answers_example =
    client_recv_response_for-Answers 3 waiting_client waiting_client-IsMatched

client_recv_response_for-keep_response_example :
    client_recv_response_for 3 (keep_response found waiting_client)
    ≡ (done found, fill_slot 3 none (keep_response found waiting_client))
unfolding server_create
client_recv_response_for-keep_response_example =
    client_recv_response_for-keep_response found waiting_client waiting_client-IsMatched refl
      (omega arith)

client_close-server_send_close_ack_example :
    client_close 0 (peer ((server_send_close_ack 2 (peer [])).1.output ++ byte 9 ∷ []))
    ≡ (done tt, record (peer (byte 9 ∷ [])) { output = map byte (msg_close ∷ 0 ∷ []); room = 98 })
unfolding server_create
client_close-server_send_close_ack_example =
    client_close-server_send_close_ack 0 2
      (peer ((server_send_close_ack 2 (peer [])).1.output ++ byte 9 ∷ [])) (peer []) (byte 9 ∷ [])
      refl refl refl (omega arith) (omega arith) refl

server_recv_request-client_close_example :
    server_recv_request (peer (client_close 0 (peer [])).1.output) ≡ (failed, peer [])
unfolding server_create
server_recv_request-client_close_example =
    server_recv_request-client_close 0 (peer []) (peer (client_close 0 (peer [])).1.output) refl
      refl (omega arith) refl refl refl

abbrev two_entries : List Entry
two_entries =
    record { type_id = 5; len = 1; bytes = 2 ∷ [] }
    ∷ record { type_id = 4; len = 3; bytes = b'a' ∷ b'/' ∷ b'b' ∷ [] }
    ∷ []

metadata_parse-add_entries_example :
    (n : ℕ) × (out : List ℕ) × (add_entries two_entries 0 (metadata_create 20) ≡ some (n, out))
    × (metadata_parse out n ≡ two_entries)
unfolding entries_wire be metadata_create
metadata_parse-add_entries_example =
    metadata_parse-add_entries two_entries (metadata_create 20)
      (
        record { len_fits = omega arith; len_bytes = refl },
        (record { len_fits = omega arith; len_bytes = refl }, tt),
      )
      (omega arith)

abbrev slow : List Event
slow = ready 0 ∷ interrupted ∷ ready 1 ∷ ready 7 ∷ interrupted ∷ ready 0 ∷ ready 0 ∷ []

recv_loop-recv_all_example :
    as_recv
      (recv_loop slow 3 (map byte (1 ∷ 2 ∷ 3 ∷ 4 ∷ [])) [])
      (peer (map byte (1 ∷ 2 ∷ 3 ∷ 4 ∷ [])))
    ≡ recv_all 3 (peer (map byte (1 ∷ 2 ∷ 3 ∷ 4 ∷ [])))
unfolding server_create
recv_loop-recv_all_example =
    recv_loop-recv_all slow 3 (peer (map byte (1 ∷ 2 ∷ 3 ∷ 4 ∷ []))) (omega arith)

send_loop-send_all_example :
    as_send (send_loop slow (map byte (1 ∷ 2 ∷ [])) [] 100) (peer [])
    ≡ send_all (1 ∷ 2 ∷ []) (peer [])
unfolding server_create
send_loop-send_all_example = send_loop-send_all slow (1 ∷ 2 ∷ []) (peer []) (omega arith)
