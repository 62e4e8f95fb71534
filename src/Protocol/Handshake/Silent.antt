-- ===== src/Protocol/Handshake/Silent.antt =====
-- What the client sends in the handshake of protocol.c, whatever it then reads.
use objmapper.Base.{
  ℕ, ◌-◌, ◌≤◌, ◌≡◌, refl, ap, ◌∙◌, List, [], ◌++◌, map, ◌==◌, if◌then◌else◌, be, arith, leb, length,
  take, drop, get_or, not, false, Bool, if-not-true, true, bit_and, none, replicate, bytes_eq,
}
use objmapper.Protocol.Types.{
  Connection, byte, Hello, Params, Outcome, done, closing, failed, stuck, ErrorText, magic,
  version_2, cap_ooo_replies, hello_not_sent, ack_not_received,
}
use objmapper.Protocol.Io.{M, continue, value, or_error, or_error_on, recv_all, ◌>>=◌}
use objmapper.Protocol.Io.Transfer.{Sends-send_all, Sends-or_error}
use objmapper.Protocol.Handshake.{
  hello_message, accept_ack, ack_params, allocate_pending, client_hello,
}

-- An action that sends nothing.
abbrev IsSilent {ℓ} : {A : Type ℓ} → M A → Type 0
IsSilent m = (c : Connection) → (m c).1.output ≡ c.output

continue-IsSilent {ℓ κ} :
    {A : Type ℓ} {B : Type κ} (r : Outcome A × Connection) (f : A → M B)
    → ((a : A) → IsSilent (f a))
    → (continue r f).1.output ≡ r.1.output
continue-IsSilent (done a, c) f quiet = quiet a c
continue-IsSilent (closing, c) f quiet = refl
continue-IsSilent (failed, c) f quiet = refl
continue-IsSilent (stuck, c) f quiet = refl

or_error-IsSilent {ℓ} :
    {A : Type ℓ} (e : ErrorText) (r : Outcome A × Connection)
    → (or_error_on e r).1.output ≡ r.1.output
or_error-IsSilent e (done a, c) = refl
or_error-IsSilent e (closing, c) = refl
or_error-IsSilent e (failed, c) = refl
or_error-IsSilent e (stuck, c) = refl

if-IsSilent {ℓ} :
    {A : Type ℓ} (b : Bool) (x y : M A) → IsSilent x → IsSilent y → IsSilent (if b then x else y)
if-IsSilent true x y h k = h
if-IsSilent false x y h k = k

recv_all-IsSilent : (len : ℕ) → IsSilent (recv_all len)
unfolding recv_all
recv_all-IsSilent len c = on (leb len (length c.input))
  where
    on :
        (b : Bool)
        → (let r : Outcome (List ℕ) × Connection =
              if b
              then (done (map value (take len c.input)), record c { input = drop len c.input })
              else (failed, record c { input = [] }) in
            r.1.output ≡ c.output)
    on true = refl
    on false = refl

allocate_pending_output : (p : Params) (c : Connection) → (allocate_pending p c).output ≡ c.output
unfolding allocate_pending
allocate_pending_output p c = on (bit_and p.capabilities cap_ooo_replies == 0)
  where
    on :
        (b : Bool)
        → (if b then c else record c {
          pending_capacity = p.max_pipeline;
          pending = replicate p.max_pipeline none;
        }).output
          ≡ c.output
    on true = refl
    on false = refl

accept_ack-IsSilent : (ack : List ℕ) → IsSilent (accept_ack ack)
unfolding accept_ack
accept_ack-IsSilent ack =
    if-IsSilent (not (bytes_eq (take 4 ack) magic)) _ _ (λ c. refl)
      (if-IsSilent (not (get_or ack 4 0 == version_2)) _ _ (λ c. refl)
        (λ c. allocate_pending_output (ack_params ack) (record c { params = ack_params ack })))

-- A V2 client sends its hello, whatever it then reads.
pub client_hello_output :
    (hello : Hello) (c : Connection)
    → c.version ≡ version_2
    → 9 ≤ c.room
    → (client_hello hello c).1.output ≡ c.output ++ map byte (hello_message hello)
unfolding client_hello hello_message be
client_hello_output hello c v room =
    let sent : Connection = record c {
      output = c.output ++ map byte (hello_message hello);
      room = c.room - 9;
    } in
    ap (λ (r : Outcome Params × Connection). r.1.output)
      (if-not-true (c.version == version_2) _ _ (ground arith)
        ∙ ap
            (λ (r : Outcome (Unit {0}) × Connection).
              continue r (λ _. or_error (recv_all 10) ack_not_received >>= accept_ack))
            ((Sends-or_error hello_not_sent (Sends-send_all (hello_message hello))).run c room))
    ∙ continue-IsSilent (or_error_on ack_not_received (recv_all 10 sent)) accept_ack
        accept_ack-IsSilent
    ∙ or_error-IsSilent ack_not_received (recv_all 10 sent)
    ∙ recv_all-IsSilent 10 sent
