-- ===== src/Protocol/Io.antt =====
-- lib/protocol/protocol.c, "Internal helpers": whole buffers and descriptors over a socket, as
-- actions on the connection.
pub mod Transfer
pub mod Reads
pub mod Loop
use objmapper.Base.{
  ℕ, zero, suc, ◌+◌, ◌-◌, ◌≤◌, ◌≡◌, refl, Option, none, some, List, [], ◌∷◌, ◌++◌, map, length,
  take, drop, leb, if◌then◌else◌, arith, take-append, drop-append, length-append, Bool, true, false,
  ◌∙◌, le→leb, ap, append_assoc,
}
use mathlib.Core.List.{map-append}
use objmapper.Protocol.Types.{
  Connection, Cell, byte, rights, Outcome, done, closing, failed, stuck, ErrorText,
}

abbrev pub M {ℓ} : Type ℓ → Type ℓ
M A = Connection → Outcome A × Connection

abbrev pub pure {ℓ} : {A : Type ℓ} → A → M A
pure a c = (done a, c)

abbrev pub fail {ℓ} : {A : Type ℓ} → M A
fail c = (failed, c)

abbrev pub continue {ℓ κ} :
    {A : Type ℓ} {B : Type κ} → Outcome A × Connection → (A → M B) → Outcome B × Connection
continue (done a, c) f = f a c
continue (closing, c) f = (closing, c)
continue (failed, c) f = (failed, c)
continue (stuck, c) f = (stuck, c)

infixl 5 ◌>>=◌ ◌>>◌
abbrev pub ◌>>=◌ {ℓ κ} : {A : Type ℓ} {B : Type κ} → M A → (A → M B) → M B
◌>>=◌ m f c = continue (m c) f

abbrev pub ◌>>◌ {ℓ κ} : {A : Type ℓ} {B : Type κ} → M A → M B → M B
m >> k = m >>= λ _. k

-- set_error.
abbrev pub set_error : ErrorText → M (Unit {0})
set_error e c = (done tt, record c { error = e })

-- `if (m < 0) { set_error(conn, e); return -1; }`
abbrev pub or_error_on {ℓ} :
    {A : Type ℓ} → ErrorText → Outcome A × Connection → Outcome A × Connection
or_error_on e (done a, c) = (done a, c)
or_error_on e (closing, c) = (closing, c)
or_error_on e (failed, c) = (failed, record c { error = e })
or_error_on e (stuck, c) = (stuck, c)

abbrev pub or_error {ℓ} : {A : Type ℓ} → M A → ErrorText → M A
or_error m e c = or_error_on e (m c)

abbrev pub fail_with {ℓ} : {A : Type ℓ} → ErrorText → M A
fail_with e c = (failed, record c { error = e })

-- A plain read of the byte that carries a descriptor gives 'X', and the descriptor is lost.
abbrev pub value : Cell → ℕ
value (byte b) = b
value (rights fd) = b'X'

-- Writes the whole buffer; if the socket fails before its end, what fitted is sent.
pub send_cells : List Cell → M (Unit {0})
send_cells cells c =
    if leb (length cells) c.room
    then (done tt, record c { output = c.output ++ cells; room = c.room - length cells })
    else (failed, record c { output = c.output ++ take c.room cells; room = 0 })

unfoldable pub send_all : List ℕ → M (Unit {0})
unfolding send_cells
send_all buf = send_cells (map byte buf)

-- Reads exactly `len` bytes, or fails at the end of the input and has consumed it.
unfoldable pub recv_all : ℕ → M (List ℕ)
recv_all len c =
    if leb len (length c.input)
    then (done (map value (take len c.input)), record c { input = drop len c.input })
    else (failed, record c { input = [] })

-- One byte 'X' with the descriptor in its control message.
unfoldable pub send_fd : ℕ → M (Unit {0})
unfolding send_cells
send_fd fd = send_cells (rights fd ∷ [])

-- A byte with no control message is consumed, and is a failure.
recv_fd_from : List Cell → M ℕ
recv_fd_from [] c = (failed, c)
recv_fd_from (byte b ∷ rest) c = (failed, record c { input = rest })
recv_fd_from (rights fd ∷ rest) c = (done fd, record c { input = rest })

unfoldable pub recv_fd : M ℕ
unfolding recv_fd_from
recv_fd c = recv_fd_from c.input c

-- `recv(fd, &first_byte, 1, MSG_PEEK)`
peek_from : List Cell → M ℕ
peek_from [] c = (failed, c)
peek_from (x ∷ rest) c = (done (value x), c)

unfoldable pub peek_byte : M ℕ
unfolding peek_from
peek_byte c = peek_from c.input c
