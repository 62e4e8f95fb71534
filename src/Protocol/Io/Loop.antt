-- ===== src/Protocol/Io/Loop.antt =====
-- lib/protocol/protocol.c: the loops of recv_all and send_all over what read and write return.
-- A schedule lists the results of the system calls; a call that moves bytes moves one at least.
use objmapper.Base.{
  ℕ, zero, suc, ◌+◌, ◌-◌, ◌≤◌, ◌≡◌, ap, sym, ◌∙◌, false, List, [], ◌∷◌, ◌++◌, map, length, take,
  drop, leb, if◌then◌else◌, arith, min, append_assoc, append-nil, length-drop, drop-drop, le→leb,
  take-append-take, take-append-drop, Bool-cases, leb→le, inl, inr,
}
use mathlib.Core.List.{map-append}
use objmapper.Protocol.Types.{Connection, Cell, byte, Outcome, done, failed, stuck}
use objmapper.Protocol.Io.{value, recv_all, send_all, send_cells}
use objmapper.Protocol.Io.Transfer.{length-map_byte}

-- What one call returns: at most `suc n` bytes, EINTR, or another error.
pub data Event : Type 0 where
  ready : ℕ → Event
  interrupted : Event
  error : Event

-- How a loop ends: `finished`, with what it has read or what the socket still takes, `aborted`,
-- or not within the schedule.
pub data Progress (A : Type 0) : Type 0 where
  finished : A → List Cell → Progress A
  aborted : List Cell → Progress A
  waiting : Progress A

-- `ssize_t received = read(fd, ptr, remaining)`, and 0 where the peer has closed.
abbrev moved : ℕ → ℕ → List Cell → ℕ
moved n remaining cells = min (suc n) (min remaining (length cells))

unfoldable pub recv_loop : List Event → ℕ → List Cell → List ℕ → Progress (List ℕ)
recv_loop [] zero input buf = finished buf input
recv_loop (e ∷ es) zero input buf = finished buf input
recv_loop [] (suc remaining) input buf = waiting
recv_loop (interrupted ∷ es) (suc remaining) input buf = recv_loop es (suc remaining) input buf
recv_loop (error ∷ es) (suc remaining) input buf = aborted input
recv_loop (ready n ∷ es) (suc remaining) [] buf = aborted []
recv_loop (ready n ∷ es) (suc remaining) (x ∷ input) buf =
    let k = moved n (suc remaining) (x ∷ input) in
    recv_loop es (suc remaining - k) (drop k (x ∷ input)) (buf ++ map value (take k (x ∷ input)))

-- No call fails, and at least `n` calls move bytes.
abbrev pub Serves : ℕ → List Event → Type 0
Serves n [] = n ≡ 0
Serves n (interrupted ∷ es) = Serves n es
Serves n (error ∷ es) = ⊥
Serves n (ready k ∷ es) = Serves (n - 1) es

Serves-mono : (es : List Event) (m n : ℕ) → m ≤ n → Serves n es → Serves m es
Serves-mono [] m n h s = omega arith
Serves-mono (interrupted ∷ es) m n h s = Serves-mono es m n h s
Serves-mono (error ∷ es) m n h s = s
Serves-mono (ready k ∷ es) m n h s = Serves-mono es (m - 1) (n - 1) (omega arith) s

-- What the loop comes to: all of the bytes asked for, or the end of the input.
abbrev received : ℕ → List Cell → List ℕ → Progress (List ℕ)
received n input buf =
    if leb n (length input)
    then finished (buf ++ map value (take n input)) (drop n input)
    else aborted []

received_moved :
    (k n : ℕ) (input : List Cell) (buf : List ℕ)
    → k ≤ n
    → k ≤ length input
    → received (n - k) (drop k input) (buf ++ map value (take k input)) ≡ received n input buf
received_moved k n input buf h h' = elim (Bool-cases (leb n (length input))) [
  | inl e ↦
      rw
        (
          e,
          le→leb (n - k) (length (drop k input)) (omega (arith, leb→le _ _ e, length-drop k input)),
          drop-drop k (n - k) input,
          joined,
        )
        (let same : k + (n - k) ≡ n = omega arith in rw same)
  | inr e ↦
      let shorter : leb (n - k) (length (drop k input)) ≡ false =
        ground (arith, length-drop k input) in
      rw (e, shorter)
]
  where
    joined :
        (buf ++ map value (take k input)) ++ map value (take (n - k) (drop k input))
        ≡ buf ++ map value (take n input)
    joined =
        append_assoc buf _ _
        ∙ ap (◌++◌ buf) (
            sym (map-append value (take k input) _) ∙ ap (map value) (take-append-take k n input h))

recv_loop-received :
    (es : List Event) (n : ℕ) (input : List Cell) (buf : List ℕ)
    → Serves (n + 1) es
    → recv_loop es n input buf ≡ received n input buf
unfolding recv_loop
recv_loop-received [] n input buf s = absurd (omega arith)
recv_loop-received (e ∷ es) zero input buf s =
    rw (le→leb 0 (length input) (omega arith), append-nil buf)
recv_loop-received (interrupted ∷ es) (suc n) input buf s =
    recv_loop-received es (suc n) input buf s
recv_loop-received (error ∷ es) (suc n) input buf s = elim s [ ]
recv_loop-received (ready k ∷ es) (suc n) [] buf s =
    let short : leb (suc n) 0 ≡ false = ground arith in rw short
recv_loop-received (ready k ∷ es) (suc n) (x ∷ input) buf s =
    let j = moved k (suc n) (x ∷ input) in
    recv_loop-received es (suc n - j) (drop j (x ∷ input)) (buf ++ map value (take j (x ∷ input)))
      (Serves-mono es (suc n - j + 1) (suc n + 1 - 1) (omega arith) s)
    ∙ received_moved j (suc n) (x ∷ input) buf (omega arith) (omega arith)

-- The result of a read loop as the action on the connection that it stands for.
abbrev pub as_recv : Progress (List ℕ) → Connection → Outcome (List ℕ) × Connection
as_recv (finished buf input) c = (done buf, record c { input = input })
as_recv (aborted input) c = (failed, record c { input = input })
as_recv waiting c = (stuck, c)

-- However the kernel cuts the input into reads, and however often a signal interrupts them, the
-- loop of recv_all ends and gives what `recv_all` gives: exactly the bytes asked for, or a failure
-- where the peer closes before that. No read fails, and there are enough reads that move bytes.
pub recv_loop-recv_all :
    (es : List Event) (n : ℕ) (c : Connection)
    → Serves (n + 1) es
    → as_recv (recv_loop es n c.input []) c ≡ recv_all n c
unfolding recv_all
recv_loop-recv_all es n c s = elim (Bool-cases (leb n (length c.input))) [
  | inl e ↦ rw (recv_loop-received es n c.input [] s, e)
  | inr e ↦ rw (recv_loop-received es n c.input [] s, e)
]

-- `ssize_t sent = write(fd, ptr, remaining)`; a socket with no room left fails.
unfoldable pub send_loop : List Event → List Cell → List Cell → ℕ → Progress ℕ
send_loop [] [] out room = finished room out
send_loop (e ∷ es) [] out room = finished room out
send_loop [] (x ∷ buf) out room = waiting
send_loop (interrupted ∷ es) (x ∷ buf) out room = send_loop es (x ∷ buf) out room
send_loop (error ∷ es) (x ∷ buf) out room = aborted out
send_loop (ready n ∷ es) (x ∷ buf) out zero = aborted out
send_loop (ready n ∷ es) (x ∷ buf) out (suc room) =
    let k = moved n (suc room) (x ∷ buf) in
    send_loop es (drop k (x ∷ buf)) (out ++ take k (x ∷ buf)) (suc room - k)

abbrev sent : List Cell → List Cell → ℕ → Progress ℕ
sent buf out room =
    if leb (length buf) room
    then finished (room - length buf) (out ++ buf)
    else aborted (out ++ take room buf)

sent_moved :
    (k room : ℕ) (buf out : List Cell)
    → k ≤ room
    → k ≤ length buf
    → sent (drop k buf) (out ++ take k buf) (room - k) ≡ sent buf out room
sent_moved k room buf out h h' = elim (Bool-cases (leb (length buf) room)) [
  | inl e ↦
      let left : room - k - length (drop k buf) ≡ room - length buf =
        omega (arith, leb→le _ _ e, length-drop k buf) in
      rw (
        e,
        le→leb (length (drop k buf)) (room - k) (omega (arith, leb→le _ _ e, length-drop k buf)),
        left,
        append_assoc out (take k buf) (drop k buf),
        take-append-drop k buf,
      )
  | inr e ↦
      let longer : leb (length (drop k buf)) (room - k) ≡ false =
        ground (arith, length-drop k buf) in
      rw (
        e,
        longer,
        append_assoc out (take k buf) (take (room - k) (drop k buf)),
        take-append-take k room buf h,
      )
]

send_loop-sent :
    (es : List Event) (buf out : List Cell) (room : ℕ)
    → Serves (length buf + 1) es
    → send_loop es buf out room ≡ sent buf out room
unfolding send_loop
send_loop-sent [] buf out room s = absurd (omega arith)
send_loop-sent (e ∷ es) [] out room s =
    let same : room - 0 ≡ room = omega arith in
    rw (le→leb 0 room (omega arith), append-nil out, same)
send_loop-sent (interrupted ∷ es) (x ∷ buf) out room s = send_loop-sent es (x ∷ buf) out room s
send_loop-sent (error ∷ es) (x ∷ buf) out room s = elim s [ ]
send_loop-sent (ready k ∷ es) (x ∷ buf) out zero s =
    let full : leb (length (x ∷ buf)) 0 ≡ false = ground arith in rw (full, append-nil out)
send_loop-sent (ready k ∷ es) (x ∷ buf) out (suc room) s =
    let j = moved k (suc room) (x ∷ buf) in
    send_loop-sent es (drop j (x ∷ buf)) (out ++ take j (x ∷ buf)) (suc room - j) (
      Serves-mono es (length (drop j (x ∷ buf)) + 1) (length (x ∷ buf) + 1 - 1)
        (omega (arith, length-drop j (x ∷ buf))) s)
    ∙ sent_moved j (suc room) (x ∷ buf) out (omega arith) (omega arith)

abbrev pub as_send : Progress ℕ → Connection → Outcome (Unit {0}) × Connection
as_send (finished room out) c = (done tt, record c { output = out; room = room })
as_send (aborted out) c = (failed, record c { output = out; room = 0 })
as_send waiting c = (stuck, c)

-- However the kernel cuts a buffer into writes, and however often a signal interrupts them, the
-- loop of send_all ends and gives what `send_all` gives: the whole buffer in order, or a failure
-- after the part that the socket still took. No write fails before that, and there are enough
-- writes that move bytes.
pub send_loop-send_all :
    (es : List Event) (bytes : List ℕ) (c : Connection)
    → Serves (length bytes + 1) es
    → as_send (send_loop es (map byte bytes) c.output c.room) c ≡ send_all bytes c
unfolding send_all send_cells
send_loop-send_all es bytes c s =
    let looped =
      send_loop-sent es (map byte bytes) c.output c.room (rw (length-map_byte bytes) s) in
    elim (Bool-cases (leb (length (map byte bytes)) c.room)) [
      | inl e ↦ rw (looped, e)
      | inr e ↦ rw (looped, e)
    ]
