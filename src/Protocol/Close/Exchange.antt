-- ===== src/Protocol/Close/Exchange.antt =====
-- The close message and its acknowledgement.
use objmapper.Base.{
  ℕ, ◌-◌, ◌≤◌, ◌<◌, ◌≡◌, refl, ap, ◌∙◌, List, [], ◌∷◌, ◌++◌, map, length, be, arith, ◌==◌, ==_iff,
  leb, false, if-not-true, if_eq_true, if_eq_false,
}
use objmapper.Protocol.Types.{Connection, Cell, byte, done, failed, version_1, version_2, msg_close}
use objmapper.Protocol.Io.{recv_all}
use objmapper.Protocol.Io.Transfer.{Sends-send_all, Takes-recv_all}
use objmapper.Protocol.Request.{server_recv_request, recv_request_v2}
use objmapper.Protocol.Close.{client_close, close_ack, server_send_close_ack}

pub server_send_close_ack_lem :
    (outstanding : ℕ) (s : Connection)
    → s.version ≡ version_2
    → 6 ≤ s.room
    → server_send_close_ack outstanding s ≡ (
      done tt,
      record s { output = s.output ++ map byte (close_ack outstanding); room = s.room - 6 },
    )
unfolding server_send_close_ack close_ack be
server_send_close_ack_lem outstanding s v room =
    if-not-true (s.version == version_2) _ _ ((==_iff s.version version_2).1 v)
    ∙ (Sends-send_all (close_ack outstanding)).run s room

-- A V2 client that closes sends the close message, and returns once it has read the server's
-- acknowledgement, and no more than that, whatever the number of outstanding requests.
pub client_close-server_send_close_ack :
    (reason outstanding : ℕ) (c s : Connection) (rest : List Cell)
    → c.version ≡ version_2
    → s.version ≡ version_2
    → s.output ≡ []
    → 2 ≤ c.room
    → 6 ≤ s.room
    → c.input ≡ (server_send_close_ack outstanding s).1.output ++ rest
    → client_close reason c ≡ (
      done tt,
      record c {
        input = rest;
        output = c.output ++ map byte (msg_close ∷ reason ∷ []);
        room = c.room - 2;
      },
    )
unfolding client_close close_ack be
client_close-server_send_close_ack reason outstanding c s rest vc vs empty rc rs e =
    if_eq_true (c.version == version_2) _ _ ((==_iff c.version version_2).1 vc)
    ∙ rw (
      (Sends-send_all (msg_close ∷ reason ∷ [])).run c rc,
      (Takes-recv_all 6 (close_ack outstanding) refl).run
          (record c { output = c.output ++ map byte (msg_close ∷ reason ∷ []); room = c.room - 2 })
          rest (e ∙ rw (server_send_close_ack_lem outstanding s vs rs, empty)),
    )

short_read :
    (n : ℕ) (s : Connection) → length s.input < n → recv_all n s ≡ (failed, record s { input = [] })
unfolding recv_all
short_read n s h = let no_fit : leb n (length s.input) ≡ false = ground arith in rw no_fit

recv_request_v2-short :
    (s : Connection) → length s.input < 9 → recv_request_v2 s ≡ (failed, record s { input = [] })
unfolding recv_request_v2
recv_request_v2-short s h = rw (short_read 9 s h)

client_close-waiting :
    (reason : ℕ) (c : Connection)
    → c.version ≡ version_2
    → 2 ≤ c.room
    → c.input ≡ []
    → (client_close reason c).1.output ≡ c.output ++ map byte (msg_close ∷ reason ∷ [])
unfolding client_close
client_close-waiting reason c v room waiting = rw (
  if_eq_true (c.version == version_2) _ _ ((==_iff c.version version_2).1 v),
  (Sends-send_all (msg_close ∷ reason ∷ [])).run c room,
  short_read 6
      (record c { output = c.output ++ map byte (msg_close ∷ reason ∷ []); room = c.room - 2 })
      (omega (arith, ap length waiting)),
)

-- A V2 server whose input is what a closing client has sent, before it gets its acknowledgement,
-- cannot take it for a close message: the two bytes are shorter than the header that it reads
-- first, so it does not return 1 but waits for more, and fails if the client gives up.
pub server_recv_request-client_close :
    (reason : ℕ) (c s : Connection)
    → s.version ≡ version_2
    → c.version ≡ version_2
    → 2 ≤ c.room
    → c.output ≡ []
    → c.input ≡ []
    → s.input ≡ (client_close reason c).1.output
    → server_recv_request s ≡ (failed, record s { input = [] })
unfolding server_recv_request
server_recv_request-client_close reason c s v vc room empty waiting e =
    let sent : s.input ≡ map byte (msg_close ∷ reason ∷ []) =
      e ∙ client_close-waiting reason c vc room waiting ∙ rw empty in
    let other : (s.version == version_1) ≡ false = ground arith in
    if_eq_false (s.version == version_1) _ _ other
    ∙ recv_request_v2-short s (omega (arith, ap length sent))
