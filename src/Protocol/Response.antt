-- ===== src/Protocol/Response.antt =====
-- lib/protocol/protocol.c: objm_server_send_response, objm_client_recv_response,
-- objm_server_send_error. What malloc returns is taken to be there.
pub mod RoundTrip
pub mod Progress
pub mod Desync
use objmapper.Base.{
  ℕ, ◌+◌, Option, none, some, List, [], ◌∷◌, ◌++◌, length, take, get_or, slice, be, of_be, ltb,
  ◌==◌, not, ◌&&◌, if◌then◌else◌, Bool,
}
use objmapper.Protocol.Types.{
  Connection, Response, v1_header_not_received, v2_header_not_received, unexpected_type,
  metadata_not_received, fd_not_received, version_1, msg_response, status_ok,
}
use objmapper.Protocol.Io.{
  M, pure, fail, fail_with, or_error, ◌>>=◌, ◌>>◌, send_all, recv_all, send_fd, recv_fd,
}

-- V1: status(1) + content_len(8) + metadata_len(2).
-- V2: msg_type(1) + request_id(4) + status(1) + content_len(8) + metadata_len(2).
unfoldable pub response_header_v1 : Response → List ℕ
response_header_v1 r = r.status ∷ be 8 r.content_len ++ be 2 r.metadata_len

unfoldable pub response_header_v2 : Response → List ℕ
response_header_v2 r =
    msg_response ∷ be 4 r.request_id ++ (r.status ∷ be 8 r.content_len ++ be 2 r.metadata_len)

-- `if (resp->metadata_len > 0 && resp->metadata)`
unfoldable pub send_metadata : Option (List ℕ) → ℕ → M (Unit {0})
send_metadata none len = pure tt
send_metadata (some md) len = if ltb 0 len then send_all (take len md) else pure tt

-- `if (resp->status == OBJM_STATUS_OK && resp->fd >= 0)`
unfoldable pub send_response_fd : Option ℕ → ℕ → M (Unit {0})
send_response_fd none status = pure tt
send_response_fd (some fd) status = if status == status_ok then send_fd fd else pure tt

unfoldable pub server_send_response : Response → M (Unit {0})
server_send_response r c =
    (do
      send_all (if c.version == version_1 then response_header_v1 r else response_header_v2 r)
      send_metadata r.metadata r.metadata_len
      send_response_fd r.fd r.status)
      c

-- The fields that a header gives; the response was cleared by calloc, and its fd set to -1.
v1_header : List ℕ → Response
v1_header header = record {
  request_id = 0;
  status = get_or header 0 0;
  fd = none;
  content_len = of_be (slice 1 8 header);
  metadata = none;
  metadata_len = of_be (slice 9 2 header);
  error_msg = none;
}

v2_header : List ℕ → Response
v2_header header = record {
  request_id = of_be (slice 1 4 header);
  status = get_or header 5 0;
  fd = none;
  content_len = of_be (slice 6 8 header);
  metadata = none;
  metadata_len = of_be (slice 14 2 header);
  error_msg = none;
}

recv_header_v1 : M Response
unfolding v1_header
recv_header_v1 = do header ← or_error (recv_all 11) v1_header_not_received; pure (v1_header header)

recv_header_v2 : M Response
unfolding v2_header
recv_header_v2 = do
  header ← or_error (recv_all 16) v2_header_not_received
  if not (get_or header 0 0 == msg_response)
      then fail_with (unexpected_type (get_or header 0 0))
      else pure (v2_header header)

recv_metadata : Response → M Response
recv_metadata r =
    if ltb 0 r.metadata_len
    then (do
      md ← or_error (recv_all r.metadata_len) metadata_not_received
      pure (record r { metadata = some md }))
    else pure r

-- A descriptor is awaited when the status is OK and the content length is 0.
recv_response_fd : Response → M Response
recv_response_fd r =
    if r.status == status_ok && r.content_len == 0
    then (do fd ← or_error recv_fd fd_not_received; pure (record r { fd = some fd }))
    else pure r

unfoldable pub client_recv_response : M Response
unfolding recv_header_v1 recv_header_v2 recv_metadata recv_response_fd
client_recv_response c =
    (do
      r ← if c.version == version_1 then recv_header_v1 else recv_header_v2
      r' ← recv_metadata r
      recv_response_fd r')
      c
