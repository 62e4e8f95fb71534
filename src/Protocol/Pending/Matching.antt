-- ===== src/Protocol/Pending/Matching.antt =====
-- The response that a client gets is the one that it asked for.
use objmapper.Base.{
  ℕ, zero, suc, ◌<◌, ◌≡◌, ◌≢◌, refl, ap, sym, ◌∙◌, Option, none, some, length, get_elem?, set,
  arith, ltb, ltb→lt, lt→ltb, Bool-cases, inl, inr, ◌==◌, ==_iff, if◌then◌else◌, length-set,
  replicate, get_elem?-set_self, get_elem?-set_ne, if-not-true,
}
use objmapper.Protocol.Types.{
  Connection, Response, Outcome, done, closing, failed, stuck, version_2,
}
use objmapper.Protocol.Io.{pure, continue}
use objmapper.Protocol.Io.Reads.{Kept, ReadsTo}
use objmapper.Protocol.Response.{client_recv_response}
use objmapper.Protocol.Response.Progress.{Reads-client_recv_response}
use objmapper.Protocol.Pending.{
  pending_at, fill_slot, keep_response, recv_until, client_recv_response_for,
}

-- There is a slot for each id below the capacity, and a slot holds a response with its own id.
pub record IsMatched (c : Connection) : Type 0 where
  pub sized : length c.pending ≡ c.pending_capacity
  pub matched : (i : ℕ) (r : Response) → get_elem? c.pending i ≡ some (some r) → r.request_id ≡ i

abbrev empty_slot : Option Response
empty_slot = none

-- Cleared slots hold no response.
pub cleared_slots :
    (n i : ℕ) (r : Response)
    → get_elem? (replicate n empty_slot) i ≡ some (some r)
    → r.request_id ≡ i
cleared_slots zero i r e = cc
cleared_slots (suc n) zero r e = cc
cleared_slots (suc n) (suc i) r e = absurd (never n i e)
  where
    never : (m j : ℕ) → get_elem? (replicate m empty_slot) j ≡ some (some r) → ⊥
    never zero j p = cc
    never (suc m) zero p = cc
    never (suc m) (suc j) p = never m j p

-- A result of the call for an id: a response with that id, or a failure, and no loop without end.
abbrev pub Answers : ℕ → Outcome Response × Connection → Type 0
Answers id (done r, d) = (r.request_id ≡ id) × IsMatched d
Answers id (closing, d) = IsMatched d
Answers id (failed, d) = IsMatched d
Answers id (stuck, d) = ⊥

fill_slot-IsMatched :
    (i : ℕ) (slot : Option Response) (c : Connection)
    → i < c.pending_capacity
    → ((r : Response) → slot ≡ some r → r.request_id ≡ i)
    → IsMatched c
    → IsMatched (fill_slot i slot c)
fill_slot-IsMatched i slot c h own m = record {
  sized = length-set c.pending i slot ∙ m.sized;
  matched = λ j r e. elim (Bool-cases (i == j)) [
    | inl same ↦
        let ij : i ≡ j = (==_iff i j).0 same in
        let held : get_elem? (set c.pending i slot) i ≡ some slot =
          get_elem?-set_self c.pending i slot (omega (arith, m.sized)) in
        own r (cc) ∙ ij
    | inr other ↦
        let ne : i ≢ j = ground arith in
        m.matched j r (sym (get_elem?-set_ne c.pending i j slot ne) ∙ e)
  ];
}

keep_response-IsMatched :
    (r : Response) (c : Connection) → IsMatched c → IsMatched (keep_response r c)
unfolding keep_response
keep_response-IsMatched r c m = elim (Bool-cases (ltb r.request_id c.pending_capacity)) [
  | inl e ↦ rw e (
      fill_slot-IsMatched r.request_id (some r) c (ltb→lt _ _ e)
        (λ r' own.
          ap (λ (x : Option Response). elim x [ none ↦ 0 | some y ↦ y.request_id ]) (sym own))
        m)
  | inr e ↦ rw e m
]

keep_response-input : (r : Response) (c : Connection) → (keep_response r c).input ≡ c.input
unfolding keep_response
keep_response-input r c = ground arith

Kept-IsMatched : {c d : Connection} → Kept c d → IsMatched c → IsMatched d
Kept-IsMatched k m = record {
  sized = ap length k.pending ∙ m.sized ∙ sym k.capacity;
  matched = λ i r e. m.matched i r (rw k.pending at e);
}

-- One round, given what the later rounds do.
recv_until_round :
    (fuel id : ℕ) (c : Connection) (o : Outcome Response × Connection)
    → ((d : Connection) → length d.input < fuel → IsMatched d → Answers id (recv_until fuel id d))
    → IsMatched c
    → length c.input < suc fuel
    → ReadsTo 1 c o
    → Answers id (
        continue o (λ r.
          if r.request_id == id then pure r else (λ d. recv_until fuel id (keep_response r d))))
recv_until_round fuel id c (done r, d) ih m less h = elim (Bool-cases (r.request_id == id)) [
  | inl e ↦ rw e ((==_iff r.request_id id).0 e, Kept-IsMatched h.1 m)
  | inr e ↦ rw e (
      ih (keep_response r d) (rw (keep_response-input r d) (omega arith))
        (keep_response-IsMatched r d (Kept-IsMatched h.1 m)))
]
recv_until_round fuel id c (closing, d) ih m less h = Kept-IsMatched h m
recv_until_round fuel id c (failed, d) ih m less h = Kept-IsMatched h m
recv_until_round fuel id c (stuck, d) ih m less h = h

recv_until-Answers :
    (fuel id : ℕ) (c : Connection)
    → length c.input < fuel
    → IsMatched c
    → Answers id (recv_until fuel id c)
unfolding recv_until
recv_until-Answers zero id c less m = absurd (omega arith)
recv_until-Answers (suc fuel) id c less m =
    recv_until_round fuel id c (client_recv_response c) (recv_until-Answers fuel id) m less
      (Reads-client_recv_response.run c)

pending_at-slot :
    (c : Connection) (id : ℕ) (r : Response)
    → pending_at c id ≡ some r
    → (id < c.pending_capacity) × (get_elem? c.pending id ≡ some (some r))
unfolding pending_at
pending_at-slot c id r e = ground arith

from_slot :
    (id : ℕ) (c : Connection) (slot : Option Response)
    → IsMatched c
    → pending_at c id ≡ slot
    → Answers id (elim slot [
      | some r ↦ pure r (fill_slot id none c)
      | none ↦ recv_until (suc (length c.input)) id c
    ])
from_slot id c none m e = recv_until-Answers (suc (length c.input)) id c (omega arith) m
from_slot id c (some r) m e =
    let (below, held) = pending_at-slot c id r e in
    (m.matched id r held, fill_slot-IsMatched id none c below (λ r' no_slot. cc) m)

-- The call ends with a response to the request that was asked for, or it fails; either way each
-- slot still holds a response with its own id, and the loop never runs on without end.
pub client_recv_response_for-Answers :
    (id : ℕ) (c : Connection) → IsMatched c → Answers id (client_recv_response_for id c)
unfolding client_recv_response_for
client_recv_response_for-Answers id c m = elim (Bool-cases (c.version == version_2)) [
  | inl v2 ↦ rw v2 (from_slot id c (pending_at c id) m refl)
  | inr v1 ↦ rw v1 m
]

client_recv_response_for_slot :
    (id : ℕ) (r : Response) (d : Connection)
    → d.version ≡ version_2
    → pending_at d id ≡ some r
    → client_recv_response_for id d ≡ (done r, fill_slot id none d)
unfolding client_recv_response_for
client_recv_response_for_slot id r d v held =
    if-not-true (d.version == version_2) _ _ ((==_iff d.version version_2).1 v) ∙ rw held

pending_at-keep_response :
    (r : Response) (c : Connection)
    → IsMatched c
    → r.request_id < c.pending_capacity
    → pending_at (keep_response r c) r.request_id ≡ some r
unfolding pending_at keep_response
pending_at-keep_response r c m h =
    rw (lt→ltb _ _ h, get_elem?-set_self c.pending r.request_id (some r) (omega (arith, m.sized)))
      (rw (lt→ltb _ _ h))

keep_response-version : (r : Response) (c : Connection) → (keep_response r c).version ≡ c.version
unfolding keep_response
keep_response-version r c = ground arith

-- A response that arrived early, with an id below the capacity, is kept: a later call for its id
-- returns it, reads nothing, and empties the slot.
pub client_recv_response_for-keep_response :
    (r : Response) (c : Connection)
    → IsMatched c
    → c.version ≡ version_2
    → r.request_id < c.pending_capacity
    → client_recv_response_for r.request_id (keep_response r c)
      ≡ (done r, fill_slot r.request_id none (keep_response r c))
client_recv_response_for-keep_response r c m v h =
    client_recv_response_for_slot r.request_id r (keep_response r c) (keep_response-version r c ∙ v)
      (pending_at-keep_response r c m h)
