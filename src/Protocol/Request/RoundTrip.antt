-- ===== src/Protocol/Request/RoundTrip.antt =====
-- What a server reads of the request that a client sent.
use objmapper.Base.{
  ℕ, ◌-◌, ◌^◌, ◌≤◌, ◌<◌, ◌≡◌, List, [], ◌++◌, map, length, take, ◌==◌, if◌then◌else◌, be, arith,
  of_be-be, take_all, Bool-cases, inl, inr, le→ltb_false, refl, ◌∙◌,
}
use objmapper.Protocol.Types.{
  Connection, Cell, byte, Request, done, version_1, max_uri_len, v1_request_not_sent,
  v2_request_not_sent,
}
use objmapper.Protocol.Io.Transfer.{
  Takes, Sends-send_all, Sends-bind, Sends-or_error, Takes-recv_all, Takes-bind, Takes-then,
}
use objmapper.Protocol.Request.{
  request_header_v1, request_header_v2, client_send_request, server_recv_request, recv_uri,
  recv_request_v1, recv_request_v2,
}

-- The fields have the widths of the header, and `uri_len` is the length of `uri`.
pub record IsSendable (req : Request) : Type 0 where
  pub id_fits : req.id < 2 ^ 32
  pub uri_fits : req.uri_len ≤ max_uri_len
  pub uri_length : length req.uri ≡ req.uri_len

-- The bytes of a request.
unfoldable pub request_wire : ℕ → Request → List Cell
request_wire version req =
    map byte (if version == version_1 then request_header_v1 req else request_header_v2 req)
    ++ map byte (take req.uri_len req.uri)

-- A V1 request carries neither id nor flags.
unfoldable pub as_received : ℕ → Request → Request
as_received version req = if version == version_1 then record req { id = 0; flags = 0 } else req

-- A client whose socket takes the message sends the bytes of the request, and only those.
pub client_send_request_lem :
    (req : Request) (c : Connection)
    → length (request_wire c.version req) ≤ c.room
    → client_send_request req c ≡ (
      done tt,
      record c {
        output = c.output ++ request_wire c.version req;
        room = c.room - length (request_wire c.version req);
      },
    )
unfolding client_send_request request_wire
client_send_request_lem req c h =
    let uri = Sends-send_all (take req.uri_len req.uri) in
    elim (Bool-cases (c.version == version_1)) [
      | inl v1 ↦
          rw (v1, request_wire)
            ((Sends-or_error v1_request_not_sent
                (Sends-bind (Sends-send_all (request_header_v1 req)) uri)).run
              c (rw (v1, request_wire) at h))
      | inr v2 ↦
          rw (v2, request_wire)
            ((Sends-or_error v2_request_not_sent
                (Sends-bind (Sends-send_all (request_header_v2 req)) uri)).run
              c (rw (v2, request_wire) at h))
    ]

Takes-recv_uri :
    (r : Request) (uri : List ℕ)
    → r.uri_len ≤ max_uri_len
    → length uri ≡ r.uri_len
    → Takes (recv_uri r) (map byte uri) (record r { uri = uri })
unfolding recv_uri
Takes-recv_uri r uri h len =
    rw (le→ltb_false _ _ h)
      (Takes-then (λ (x : List ℕ). record r { uri = x }) (Takes-recv_all r.uri_len uri len))

Takes-recv_request_v1 :
    (req : Request)
    → IsSendable req
    → Takes recv_request_v1
        (map byte (request_header_v1 req) ++ map byte req.uri)
        (record req { id = 0; flags = 0 })
unfolding recv_request_v1 request_header_v1 be
Takes-recv_request_v1 req w = Takes-bind _ (Takes-recv_all 3 (request_header_v1 req) refl) (
    simp (of_be-be 2 req.uri_len (omega (arith, w.uri_fits)))
      (Takes-recv_uri (record req { id = 0; flags = 0; uri = [] }) req.uri w.uri_fits w.uri_length))

Takes-recv_request_v2 :
    (req : Request)
    → IsSendable req
    → Takes recv_request_v2 (map byte (request_header_v2 req) ++ map byte req.uri) req
unfolding recv_request_v2 request_header_v2 be
Takes-recv_request_v2 req w = Takes-bind _ (Takes-recv_all 9 (request_header_v2 req) refl) (
    simp (of_be-be 4 req.id w.id_fits, of_be-be 2 req.uri_len (omega (arith, w.uri_fits)))
      (Takes-recv_uri (record req { uri = [] }) req.uri w.uri_fits w.uri_length))

pub server_recv_request_lem :
    (req : Request) (rest : List Cell) (s : Connection)
    → IsSendable req
    → s.input ≡ request_wire s.version req ++ rest
    → server_recv_request s ≡ (done (as_received s.version req), record s { input = rest })
unfolding server_recv_request request_wire as_received
server_recv_request_lem req rest s w e = elim (Bool-cases (s.version == version_1)) [
  | inl v1 ↦ rw v1 ((Takes-recv_request_v1 req w).run s rest (rw (v1, request_wire, whole) at e))
  | inr v2 ↦ rw v2 ((Takes-recv_request_v2 req w).run s rest (rw (v2, request_wire, whole) at e))
]
  where
    whole : take req.uri_len req.uri ≡ req.uri
    whole = take_all req.uri_len req.uri w.uri_length

-- A server of the client's version reads back the request that the client sent, and leaves what
-- follows it on the socket: for V2 the whole request, for V1 all but its id and flags, which are 0.
-- The id has 32 bits, the URI has the stated length, at most 4096, and the socket takes the message.
pub server_recv_request-client_send_request :
    (req : Request) (c s : Connection) (rest : List Cell)
    → IsSendable req
    → s.version ≡ c.version
    → c.output ≡ []
    → length (request_wire c.version req) ≤ c.room
    → s.input ≡ (client_send_request req c).1.output ++ rest
    → server_recv_request s ≡ (done (as_received c.version req), record s { input = rest })
server_recv_request-client_send_request req c s rest w v empty room e =
    rw (← v) (
      server_recv_request_lem req rest s w
        (e ∙ simp (client_send_request_lem req c room, empty, v)))
