-- ===== src/Protocol/Response/RoundTrip.antt =====
-- What a client reads of the response that a server sent.
use objmapper.Base.{
  ℕ, ◌-◌, ◌^◌, ◌≤◌, ◌<◌, ◌≡◌, ◌≢◌, refl, ◌∙◌, Option, none, some, List, [], ◌∷◌, ◌++◌, map, length,
  take, ltb, ◌==◌, ◌&&◌, if◌then◌else◌, be, arith, of_be-be, length-take, append-nil, Bool-cases,
  inl, inr, true, false, lt→ltb, le→ltb_false, ltb_false→le,
}
use objmapper.Protocol.Types.{
  Connection, Cell, byte, rights, Response, done, version_1, status_ok, v1_header_not_received,
  v2_header_not_received, metadata_not_received, fd_not_received,
}
use objmapper.Protocol.Io.{M, ◌>>=◌}
use objmapper.Protocol.Io.Transfer.{
  Sends, Takes, Sends-send_all, Sends-send_fd, Sends-pure, Sends-bind, Takes-recv_all,
  Takes-recv_fd, Takes-bind, Takes-then, Takes-pure, Takes-or_error,
}
use objmapper.Protocol.Response.{
  response_header_v1, response_header_v2, send_metadata, send_response_fd, server_send_response,
  recv_header_v1, recv_header_v2, v1_header, v2_header, recv_metadata, recv_response_fd,
  client_recv_response,
}

-- The metadata is absent, or its buffer has the stated length at least, which is not 0.
abbrev pub MetadataFits : Option (List ℕ) → ℕ → Type 0
MetadataFits none len = len ≡ 0
MetadataFits (some md) len = (len ≤ length md) × (0 < len)

-- Where the status is OK, there is a descriptor exactly if the content length is 0.
abbrev pub FdAgrees : Option ℕ → ℕ → ℕ → Type 0
FdAgrees none status len = status ≡ status_ok → len ≢ 0
FdAgrees (some fd) status len = (status ≡ status_ok) × (len ≡ 0)

pub record IsAnswer (r : Response) : Type 0 where
  pub id_fits : r.request_id < 2 ^ 32
  pub content_fits : r.content_len < 2 ^ 64
  pub metadata_len_fits : r.metadata_len < 2 ^ 16
  pub metadata_fits : MetadataFits r.metadata r.metadata_len
  pub fd_agrees : FdAgrees r.fd r.status r.content_len

abbrev metadata_cells : Option (List ℕ) → ℕ → List Cell
metadata_cells none len = []
metadata_cells (some md) len = map byte (take len md)

abbrev fd_cells : Option ℕ → ℕ → List Cell
fd_cells none status = []
fd_cells (some fd) status = if status == status_ok then rights fd ∷ [] else []

-- The cells of a response.
unfoldable pub response_wire : ℕ → Response → List Cell
response_wire version r =
    map byte (if version == version_1 then response_header_v1 r else response_header_v2 r)
    ++ (metadata_cells r.metadata r.metadata_len ++ fd_cells r.fd r.status)

-- The part of the buffer that is sent.
abbrev pub sent_metadata : Option (List ℕ) → ℕ → Option (List ℕ)
sent_metadata none len = none
sent_metadata (some md) len = some (take len md)

-- A V1 response carries no request id, and the error text stays with the server.
unfoldable pub response_received : ℕ → Response → Response
response_received version r = record r {
  request_id = if version == version_1 then 0 else r.request_id;
  metadata = sent_metadata r.metadata r.metadata_len;
  error_msg = none;
}

Sends-send_metadata :
    (md : Option (List ℕ)) (len : ℕ) → Sends (send_metadata md len) (metadata_cells md len)
unfolding send_metadata
Sends-send_metadata none len = Sends-pure
Sends-send_metadata (some md) len = elim (Bool-cases (ltb 0 len)) [
  | inl more ↦ rw more (Sends-send_all (take len md))
  | inr empty ↦ rw (empty, none_left (ltb_false→le 0 len empty)) Sends-pure
]
  where
    none_left : len ≤ 0 → len ≡ 0
    none_left h = omega arith

Sends-send_response_fd :
    (fd : Option ℕ) (status : ℕ) → Sends (send_response_fd fd status) (fd_cells fd status)
unfolding send_response_fd
Sends-send_response_fd none status = Sends-pure
Sends-send_response_fd (some fd) status = elim (Bool-cases (status == status_ok)) [
  | inl fine ↦ rw fine (Sends-send_fd fd)
  | inr error ↦ rw error Sends-pure
]

-- A server whose socket takes the message sends the cells of the response, and only those.
pub server_send_response_lem :
    (r : Response) (c : Connection)
    → length (response_wire c.version r) ≤ c.room
    → server_send_response r c ≡ (
      done tt,
      record c {
        output = c.output ++ response_wire c.version r;
        room = c.room - length (response_wire c.version r);
      },
    )
unfolding server_send_response response_wire
server_send_response_lem r c h =
    (Sends-bind (Sends-send_all _) (
        Sends-bind (Sends-send_metadata r.metadata r.metadata_len)
          (Sends-send_response_fd r.fd r.status))).run
      c h

Takes-recv_header_v1 :
    (r : Response)
    → IsAnswer r
    → Takes recv_header_v1
        (map byte (response_header_v1 r))
        (record r { request_id = 0; fd = none; metadata = none; error_msg = none })
unfolding recv_header_v1 v1_header response_header_v1 be
Takes-recv_header_v1 r w =
    simp (of_be-be 8 r.content_len w.content_fits, of_be-be 2 r.metadata_len w.metadata_len_fits) at
      (Takes-then v1_header
        (Takes-or_error v1_header_not_received (Takes-recv_all 11 (response_header_v1 r) refl)))

Takes-recv_header_v2 :
    (r : Response)
    → IsAnswer r
    → Takes recv_header_v2
        (map byte (response_header_v2 r))
        (record r { fd = none; metadata = none; error_msg = none })
unfolding recv_header_v2 v2_header response_header_v2 be
Takes-recv_header_v2 r w =
    let raw : Takes recv_header_v2 (map byte (response_header_v2 r) ++ [])
        (v2_header (response_header_v2 r)) =
      Takes-bind _
        (Takes-or_error v2_header_not_received (Takes-recv_all 16 (response_header_v2 r) refl))
        (Takes-pure (v2_header (response_header_v2 r))) in
    simp
      (
        of_be-be 4 r.request_id w.id_fits,
        of_be-be 8 r.content_len w.content_fits,
        of_be-be 2 r.metadata_len w.metadata_len_fits,
        append-nil,
      )
      at raw

Takes-recv_metadata :
    (r : Response) (md : Option (List ℕ))
    → MetadataFits md r.metadata_len
    → Takes
        (recv_metadata (record r { metadata = none }))
        (metadata_cells md r.metadata_len)
        (record r { metadata = sent_metadata md r.metadata_len })
unfolding recv_metadata
Takes-recv_metadata r none w =
    rw (le→ltb_false 0 r.metadata_len (omega arith)) (Takes-pure (record r { metadata = none }))
Takes-recv_metadata r (some md) w = rw (lt→ltb 0 r.metadata_len w.1) (
    Takes-then (λ (x : List ℕ). record r { metadata = some x })
      (Takes-or_error metadata_not_received (
        Takes-recv_all r.metadata_len (take r.metadata_len md)
          (omega (arith, length-take r.metadata_len md)))))

Takes-recv_response_fd :
    (r : Response) (fd : Option ℕ)
    → FdAgrees fd r.status r.content_len
    → Takes
        (recv_response_fd (record r { fd = none }))
        (fd_cells fd r.status)
        (record r { fd = fd })
unfolding recv_response_fd
Takes-recv_response_fd r none w =
    let stop : (r.status == status_ok && r.content_len == 0) ≡ false = ground arith in
    rw stop (Takes-pure (record r { fd = none }))
Takes-recv_response_fd r (some fd) w =
    let go : (r.status == status_ok && r.content_len == 0) ≡ true = ground arith in
    let fine : (r.status == status_ok) ≡ true = ground arith in
    rw (go, fine)
      (Takes-then (λ (x : ℕ). record r { fd = some x })
        (Takes-or_error fd_not_received (Takes-recv_fd fd)))

-- The metadata and the descriptor after a header.
Takes-recv_body :
    (q : Response) (m : M Response) (xs : List Cell)
    → MetadataFits q.metadata q.metadata_len
    → FdAgrees q.fd q.status q.content_len
    → Takes m xs (record q { fd = none; metadata = none })
    → Takes
        (do x ← m; y ← recv_metadata x; recv_response_fd y)
        (xs ++ (metadata_cells q.metadata q.metadata_len ++ fd_cells q.fd q.status))
        (record q { metadata = sent_metadata q.metadata q.metadata_len })
Takes-recv_body q m xs mf fa h = Takes-bind _ h (
    Takes-bind _ (Takes-recv_metadata (record q { fd = none }) q.metadata mf) (
      Takes-recv_response_fd (record q { metadata = sent_metadata q.metadata q.metadata_len }) q.fd
        fa))

-- A client whose input begins with the cells of a response returns it, and leaves what follows.
pub client_recv_response_lem :
    (r : Response) (rest : List Cell) (c : Connection)
    → IsAnswer r
    → c.input ≡ response_wire c.version r ++ rest
    → client_recv_response c ≡ (done (response_received c.version r), record c { input = rest })
unfolding client_recv_response response_wire response_received
client_recv_response_lem r rest c w e = elim (Bool-cases (c.version == version_1)) [
  | inl v1 ↦ rw v1 (
      (Takes-recv_body (record r { request_id = 0; error_msg = none }) recv_header_v1 _
          w.metadata_fits w.fd_agrees (Takes-recv_header_v1 r w)).run
        c rest (rw (v1, response_wire) at e))
  | inr v2 ↦ rw v2 (
      (Takes-recv_body (record r { error_msg = none }) recv_header_v2 _ w.metadata_fits w.fd_agrees
          (Takes-recv_header_v2 r w)).run
        c rest (rw (v2, response_wire) at e))
]

-- A client of the server's version reads back the response that the server sent, its metadata and
-- its descriptor included, and leaves what follows it on the socket; the error text stays behind,
-- and for V1 the request id. The numbers have the widths of the header, and the metadata buffer
-- has at least the stated length, of which that much is sent. Where the status is OK there is a
-- descriptor exactly if the content length is 0, and where it is not there is none. The socket
-- takes the message.
pub client_recv_response-server_send_response :
    (r : Response) (s c : Connection) (rest : List Cell)
    → IsAnswer r
    → c.version ≡ s.version
    → s.output ≡ []
    → length (response_wire s.version r) ≤ s.room
    → c.input ≡ (server_send_response r s).1.output ++ rest
    → client_recv_response c ≡ (done (response_received s.version r), record c { input = rest })
client_recv_response-server_send_response r s c rest w v empty room e =
    rw (← v)
      (client_recv_response_lem r rest c w (e ∙ simp (server_send_response_lem r s room, empty, v)))
