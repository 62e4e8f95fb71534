-- ===== src/Protocol/Response/Desync.antt =====
-- Responses whose descriptor does not match their content length: the client waits for a
-- descriptor by the content length, the server sends one by `fd`.
use objmapper.Base.{
  ℕ, ◌^◌, ◌≤◌, ◌<◌, ◌≡◌, ◌≢◌, ◌∙◌, none, some, List, [], ◌∷◌, ◌++◌, length, append_assoc,
  append-nil,
}
use objmapper.Protocol.Types.{Connection, Cell, rights, Response, done, status_ok}
use objmapper.Protocol.Response.{
  response_header_v1, response_header_v2, server_send_response, client_recv_response,
}
use objmapper.Protocol.Response.RoundTrip.{
  MetadataFits, response_wire, response_received, server_send_response_lem,
  client_recv_response_lem,
}

-- The widths and the metadata of a response, whatever its descriptor.
pub record HasWidths (r : Response) : Type 0 where
  pub id_fits : r.request_id < 2 ^ 32
  pub content_fits : r.content_len < 2 ^ 64
  pub metadata_len_fits : r.metadata_len < 2 ^ 16
  pub metadata_fits : MetadataFits r.metadata r.metadata_len

-- The response as if it had no descriptor.
abbrev without_fd : Response → Response
without_fd r = record r { fd = none }

wire-without_fd :
    (version fd : ℕ) (r : Response)
    → r.fd ≡ some fd
    → r.status ≡ status_ok
    → response_wire version r ≡ response_wire version (without_fd r) ++ rights fd ∷ []
unfolding response_wire response_header_v1 response_header_v2
wire-without_fd version fd r f ok = simp (f, ok, append_assoc, append-nil)

-- An OK response with a descriptor and a content length other than 0: the client returns it
-- without the descriptor, which stays on the socket as the first cell of the next message.
pub client_recv_response_left_fd :
    (r : Response) (fd : ℕ) (s c : Connection) (rest : List Cell)
    → HasWidths r
    → r.fd ≡ some fd
    → r.status ≡ status_ok
    → r.content_len ≢ 0
    → c.version ≡ s.version
    → s.output ≡ []
    → length (response_wire s.version r) ≤ s.room
    → c.input ≡ (server_send_response r s).1.output ++ rest
    → client_recv_response c
      ≡ (done (response_received s.version (without_fd r)), record c { input = rights fd ∷ rest })
client_recv_response_left_fd r fd s c rest w f ok len v empty room e = rw (← v) (
    client_recv_response_lem (without_fd r) (rights fd ∷ rest) c
      (record {
        id_fits = w.id_fits;
        content_fits = w.content_fits;
        metadata_len_fits = w.metadata_len_fits;
        metadata_fits = w.metadata_fits;
        fd_agrees = λ _. len;
      })
      (e
        ∙ simp (
          server_send_response_lem r s room,
          empty,
          v,
          wire-without_fd s.version fd r f ok,
          append_assoc,
        )))
