-- ===== src/Protocol.antt =====
-- lib/protocol: the wire protocol between a client and a server. `Types` has the data of
-- protocol.h, `Io` the transfer of whole buffers over a socket, the others one part each of
-- protocol.c.
pub mod Types
pub mod Io
pub mod Request
pub mod Response
pub mod Handshake
pub mod Pending
pub mod Close
pub mod Metadata
