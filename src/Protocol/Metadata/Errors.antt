-- ===== src/Protocol/Metadata/Errors.antt =====
-- What a client reads of an error response: objm_server_send_error on one side,
-- objm_client_recv_response and objm_metadata_parse on the other.
use objmapper.Base.{
  ℕ, ◌+◌, ◌≤◌, ◌≡◌, refl, ap, ◌∙◌, none, some, List, [], ◌++◌, length, drop, be, arith, length-be,
  length-append, length-replicate, lt→ltb, replicate,
}
use objmapper.Protocol.Types.{Response}
use objmapper.Protocol.Response.{server_send_response}
use objmapper.Protocol.Metadata.{
  Entry, metadata_create, metadata_add, metadata_parse, error_response, server_send_error,
}
use objmapper.Protocol.Metadata.Parse.{entry_wire}
use objmapper.Protocol.Metadata.Build.{metadata_add_lem}

-- The one entry of an error response.
abbrev pub error_entry : List ℕ → Entry
error_entry msg = record { type_id = 0xFF; len = length msg; bytes = msg }

-- The buffer once the entry is written, with the bytes behind it still cleared.
abbrev error_buffer : List ℕ → List ℕ
error_buffer msg =
    entry_wire (error_entry msg)
    ++ drop (length (entry_wire (error_entry msg))) (replicate (length msg + 10) 0)

length-entry : (msg : List ℕ) → length (entry_wire (error_entry msg)) ≡ 3 + length msg
length-entry msg = omega (arith, length-append (be 2 (length msg)) msg, length-be 2 (length msg))

error_metadata :
    (msg : List ℕ)
    → length msg ≤ 65532
    → metadata_add (metadata_create (length msg + 10)) 0 0xFF msg
      ≡ some (3 + length msg, error_buffer msg)
unfolding metadata_create
error_metadata msg h = rw (lt→ltb 0 (length msg + 10) (omega arith)) (
    metadata_add_lem [] (replicate (length msg + 10) 0) (error_entry msg)
      (record { len_fits = omega arith; len_bytes = refl })
      (omega (arith, length-entry msg, length-replicate {A = ℕ} (length msg + 10) 0))
    ∙ ap (λ (k : ℕ). some (k, error_buffer msg)) (omega arith))

abbrev pub sent_error : ℕ → ℕ → List ℕ → Response
sent_error request_id status msg =
    error_response request_id status (some (3 + length msg, error_buffer msg))

pub server_send_error_lem :
    (request_id status : ℕ) (msg : List ℕ)
    → length msg ≤ 65532
    → server_send_error request_id status (some msg)
      ≡ server_send_response (sent_error request_id status msg)
unfolding server_send_error
server_send_error_lem request_id status msg h = rw (server_send_error, error_metadata msg h)

-- What a client finds in the metadata of a response.
unfoldable pub entries_of : Response → List Entry
entries_of r = elim r.metadata [ none ↦ [] | some md ↦ metadata_parse md r.metadata_len ]
