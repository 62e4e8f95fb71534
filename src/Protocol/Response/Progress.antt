-- ===== src/Protocol/Response/Progress.antt =====
-- objm_client_recv_response on any input: it ends, uses up a whole header where it returns a
-- response, and leaves all of the connection but its input and error text as it was.
use objmapper.Base.{◌==◌, ltb, not, ◌&&◌, some, get_or, arith}
use objmapper.Protocol.Types.{
  Response, version_1, v1_header_not_received, v2_header_not_received, metadata_not_received,
  fd_not_received, status_ok, msg_response, unexpected_type,
}
use objmapper.Protocol.Io.Reads.{
  Reads, Reads-pure, Reads-fail_with, Reads-recv_all, Reads-recv_fd, Reads-or_error, Reads-bind,
  Reads-if, Reads-weaken,
}
use objmapper.Protocol.Response.{
  v1_header, v2_header, recv_header_v1, recv_header_v2, recv_metadata, recv_response_fd,
  client_recv_response,
}

Reads-recv_header_v1 : Reads recv_header_v1 11
unfolding recv_header_v1
Reads-recv_header_v1 =
    Reads-bind _ 0 (Reads-or_error v1_header_not_received (Reads-recv_all 11))
      (λ header. Reads-pure (v1_header header))

Reads-recv_header_v2 : Reads recv_header_v2 16
unfolding recv_header_v2
Reads-recv_header_v2 =
    Reads-bind _ 0 (Reads-or_error v2_header_not_received (Reads-recv_all 16)) (λ header.
      Reads-if (not (get_or header 0 0 == msg_response))
        (Reads-fail_with Response (unexpected_type (get_or header 0 0)) 0)
        (Reads-pure (v2_header header)))

Reads-recv_metadata : (r : Response) → Reads (recv_metadata r) 0
unfolding recv_metadata
Reads-recv_metadata r =
    Reads-if (ltb 0 r.metadata_len)
      (Reads-weaken 0 (omega arith) (
        Reads-bind _ 0 (Reads-or_error metadata_not_received (Reads-recv_all r.metadata_len))
          (λ md. Reads-pure (record r { metadata = some md }))))
      (Reads-pure r)

Reads-recv_response_fd : (r : Response) → Reads (recv_response_fd r) 0
unfolding recv_response_fd
Reads-recv_response_fd r =
    Reads-if (r.status == status_ok && r.content_len == 0)
      (Reads-weaken 0 (omega arith) (
        Reads-bind _ 0 (Reads-or_error fd_not_received Reads-recv_fd)
          (λ fd. Reads-pure (record r { fd = some fd }))))
      (Reads-pure r)

pub Reads-client_recv_response : Reads client_recv_response 1
unfolding client_recv_response
Reads-client_recv_response = record {
  run = λ c.
      (Reads-bind _ 0
          (Reads-if (c.version == version_1) (Reads-weaken 1 (omega arith) Reads-recv_header_v1)
            (Reads-weaken 1 (omega arith) Reads-recv_header_v2))
          (λ r. Reads-bind _ 0 (Reads-recv_metadata r) (λ r'. Reads-recv_response_fd r'))).run
        c;
}
