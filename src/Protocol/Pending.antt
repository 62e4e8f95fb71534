-- ===== src/Protocol/Pending.antt =====
-- lib/protocol/protocol.c: objm_client_recv_response_for, and objm_client_destroy,
-- objm_server_destroy with objm_response_free as the descriptors that they close.
pub mod Matching
use objmapper.Base.{
  ℕ, zero, suc, ◌+◌, ◌<◌, ◌≡◌, Option, none, some, List, [], ◌∷◌, ◌++◌, length, get_elem?, set, ltb,
  ◌==◌, not, if◌then◌else◌,
}
use objmapper.Protocol.Types.{Connection, Response, Outcome, stuck, version_2}
use objmapper.Protocol.Io.{M, pure, fail, ◌>>=◌, ◌>>◌}
use objmapper.Protocol.Response.{client_recv_response}

-- `conn->pending_responses[i]` below the capacity; a slot that was never filled is NULL.
unfoldable pub pending_at : Connection → ℕ → Option Response
pending_at c i =
    if ltb i c.pending_capacity
    then elim (get_elem? c.pending i) [ none ↦ none | some slot ↦ slot ]
    else none

abbrev pub fill_slot : ℕ → Option Response → Connection → Connection
fill_slot i slot c = record c { pending = set c.pending i slot }

-- A response for another request is kept, or freed if its id is out of range.
unfoldable pub keep_response : Response → Connection → Connection
keep_response r c =
    if ltb r.request_id c.pending_capacity then fill_slot r.request_id (some r) c else c

-- `while (1)`, on fuel.
recv_until : ℕ → ℕ → M Response
unfolding keep_response
recv_until zero request_id c = (stuck, c)
recv_until (suc fuel) request_id c =
    (do
      r ← client_recv_response
      let later = λ (d : Connection). recv_until fuel request_id (keep_response r d)
      if r.request_id == request_id then pure r else later)
      c

-- Every response takes a cell of the input at least, so the fuel is enough.
unfoldable pub client_recv_response_for : ℕ → M Response
unfolding recv_until
client_recv_response_for request_id c =
    if not (c.version == version_2) then fail c else elim (pending_at c request_id) [
      | some r ↦ pure r (fill_slot request_id none c)
      | none ↦ recv_until (suc (length c.input)) request_id c
    ]

-- objm_response_free closes the descriptor of a response; the memory is not modelled.
abbrev response_free : Response → List ℕ
response_free r = elim r.fd [ none ↦ [] | some fd ↦ fd ∷ [] ]

free_slots : List (Option Response) → List ℕ
free_slots [] = []
free_slots (none ∷ slots) = free_slots slots
free_slots (some r ∷ slots) = response_free r ++ free_slots slots

-- The descriptors that objm_client_destroy closes.
unfoldable pub client_destroy : Connection → List ℕ
unfolding free_slots
client_destroy c = free_slots c.pending
