-- ===== src/Protocol/Request.antt =====
-- lib/protocol/protocol.c: objm_client_send_request and objm_server_recv_request. What malloc
-- returns is taken to be there.
pub mod RoundTrip
use objmapper.Base.{
  ℕ, ◌+◌, List, [], ◌∷◌, ◌++◌, take, get_or, slice, be, of_be, ltb, ◌==◌, not, if◌then◌else◌,
}
use objmapper.Protocol.Types.{
  Connection, Request, Outcome, closing, ErrorText, v1_request_not_sent, v2_request_not_sent,
  uri_too_long, unexpected_type, version_1, msg_request, msg_close, max_uri_len,
}
use objmapper.Protocol.Io.{M, pure, fail, fail_with, or_error, ◌>>=◌, ◌>>◌, send_all, recv_all}

-- V1: mode(1) + uri_len(2). V2: msg_type(1) + request_id(4) + flags(1) + mode(1) + uri_len(2).
unfoldable pub request_header_v1 : Request → List ℕ
request_header_v1 req = req.mode ∷ be 2 req.uri_len

unfoldable pub request_header_v2 : Request → List ℕ
request_header_v2 req = msg_request ∷ be 4 req.id ++ (req.flags ∷ req.mode ∷ be 2 req.uri_len)

unfoldable pub client_send_request : Request → M (Unit {0})
client_send_request req c =
    if c.version == version_1
    then or_error (do send_all (request_header_v1 req); send_all (take req.uri_len req.uri))
        v1_request_not_sent c
    else or_error (do send_all (request_header_v2 req); send_all (take req.uri_len req.uri))
        v2_request_not_sent c

-- The end of both branches of objm_server_recv_request: the length test, and the URI.
unfoldable pub recv_uri : Request → M Request
recv_uri r =
    if ltb max_uri_len r.uri_len
    then fail_with uri_too_long
    else do uri ← recv_all r.uri_len; pure (record r { uri = uri })

unfoldable pub recv_request_v1 : M Request
unfolding recv_uri
recv_request_v1 = do
  header ← recv_all 3
  recv_uri (record {
    id = 0;
    flags = 0;
    mode = get_or header 0 0;
    uri = [];
    uri_len = of_be (slice 1 2 header);
  })

-- 1 on a CLOSE message.
unfoldable pub recv_request_v2 : M Request
unfolding recv_uri
recv_request_v2 = do
  header ← recv_all 9
  let msg_type = get_or header 0 0
  if msg_type == msg_close
      then (λ c. (closing, c))
      else if not (msg_type == msg_request)
      then fail_with (unexpected_type msg_type)
      else recv_uri (record {
        id = of_be (slice 1 4 header);
        flags = get_or header 5 0;
        mode = get_or header 6 0;
        uri = [];
        uri_len = of_be (slice 7 2 header);
      })

unfoldable pub server_recv_request : M Request
unfolding recv_request_v1 recv_request_v2
server_recv_request c = if c.version == version_1 then recv_request_v1 c else recv_request_v2 c
