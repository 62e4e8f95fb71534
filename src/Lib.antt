-- ===== src/Lib.antt =====
-- objmapper hands out objects by URI over local sockets: the server answers a request with the
-- descriptor of the object's file, or with its content. Its library, lib/, has one part for the
-- wire protocol, one for the objects and their files, and others for the index, the backends and
-- the transports.
--
-- lib/protocol/protocol.c and protocol.h, in Protocol:
--   Types      the constants, the messages, and struct objm_connection as the record Connection.
--              The socket is three of its fields: what the peer has sent and this side has not
--              read, what this side has sent, and how many bytes the kernel still takes. A cell of
--              the socket is a byte, or the byte that carries a descriptor.
--   Io         send_all, recv_all, send_fd, recv_fd and set_error, as actions that take the
--              connection and return an outcome with the new connection. Io.Loop has the loops of
--              send_all and recv_all over the partial reads, the partial writes and the signals of
--              the kernel. Io.Transfer and Io.Reads are the rules for what an action sends and reads.
--   Handshake  objm_client_create, objm_server_create, objm_client_hello, objm_server_handshake.
--   Request    objm_client_send_request, objm_server_recv_request.
--   Response   objm_server_send_response, objm_client_recv_response.
--   Pending    objm_client_recv_response_for, with the slots of responses that came early, and the
--              descriptors that objm_client_destroy closes.
--   Metadata   objm_metadata_add, objm_metadata_parse and their kin, and objm_server_send_error.
--   Close      objm_client_close, objm_server_send_close_ack, and the accessors.
--
-- lib/storage/storage.c and storage.h, in Storage:
--   Types      object_slot_t, hash_entry_t, struct object_storage with the system calls made so
--              far, and the answers that the kernel gives to the calls of an operation.
--   Table      hash_uri, find_slot, add_hash_entry, on chains as lists; Table.Lookup is what a
--              search finds.
--   Objects    storage_init, storage_put, storage_get_fd, storage_get_mmap, storage_get_info,
--              storage_remove, storage_get_stats, storage_cleanup. Its children prove what an
--              operation keeps, what a claimed and a removed slot are, and the operations as those
--              of a dictionary.
--
-- lib/index/index.c and index.h, in Index:
--   Entry      struct index_entry in a memory of numbered addresses, its counts and descriptor, struct
--              fd_ref, index_hash_string, index_next_power_of_2. Entry.Balance is what a release of
--              a reference does.
--   Tables     struct global_index and struct backend_index, with their creation, lookups and
--              insertions; a chain is followed along the entries' own links, which both indexes
--              share. Tables.References and Tables.Chains are about lookups and about those links.
--   Removal    removals from both indexes, the change of an entry's backend, and the destruction of
--              the indexes.
--   Links      the chains as lists of addresses, and what insertions and removals do to searches.
--              Links.First is what a search finds. The walk reads an entry that was freed as it
--              last was.
--   Persist    backend_index_save and backend_index_load; a file is a list of bytes, and a read past
--              the end of a file leaves stale bytes where the code does not test it.
--              Persist.RoundTrip follows an entry, a file, the insertions of a load, and a whole
--              index through a save and a load.
--
-- lib/backend/backend.c and backend.h, in Backend:
--   Types      the backends, the manager, requests and metadata.
--   Registry   backend_manager_create, backend_manager_register, the roles, and the settings of a
--              backend; Registry.Roles and Registry.Settings are about the roles.
--   Objects    backend_create_object, backend_get_object, backend_delete_object,
--              backend_get_metadata, backend_update_size; Objects.Scan is backend_manager_scan on a
--              directory tree, Objects.Found what is found after a
--              creation, Objects.Size what a change of size counts.
--   Migration  backend_migrate_object, backend_cache_object, backend_evict_object, and what they
--              leave behind.
--   Homes      the flags, backends and paths of the entries under each operation of the index.
--   Confinement  where ephemeral objects are.
--
-- server.c, in Server:
--   State      the counters, the manager with its entries, and the connection of one thread.
--   Handlers   handle_get, handle_put, handle_delete, handle_list, and client_thread.
--   Setup      init_backends and cleanup_backends; Start is what they give.
--   Accounts, Confinement  what a client's thread counts, and what it keeps. The handlers read a URI up
--              to its first 0, as strcmp does.
-- A request goes from Protocol.Request through Server.Handlers to Backend.Objects, which works on the
-- indexes, and its answer goes back through Protocol.Response.
--
-- Base has the names that the parts share: tests on numbers, lists with native indices, numbers as
-- bytes in both orders, flags, and comparison of byte strings. Tests has the theorems at concrete inputs.
--
-- Numbers are natural numbers; a field of w bits is written by be, which cuts to its bytes, and
-- 64-bit sums are taken modulo 2 ^ 64. The loop of objm_client_recv_response_for runs on fuel, one
-- more than the cells of the input: each response takes a cell at least, so the fuel is enough. The
-- scan of metadata runs on fuel, one more than the length, as each entry takes three bytes at least.
-- A walk along a chain of the index has as much fuel as there are entries, enough for a chain
-- without a cycle.
--
-- A read at the end of the input fails, as if the peer had closed. Allocation is taken to succeed.
-- Two reads past a buffer that the code does not test are cut at the buffer's end: a URI shorter
-- than its stated length, and metadata shorter than its stated length. Locks are not modelled:
-- operations follow one another. The thread of a client runs alone.
--
-- Not modelled: what is in floating point (hotness, watermarks), backend_index_scan and crc32, which
-- nothing calls, the statistics that are copied out, main of the server, the transports, lib/fdpass,
-- which only calls the kernel, and objmapper/, client.c, the examples, the tests, the benchmarks and
-- the prototypes in Rust.
pub mod Base
pub mod Protocol
pub mod Backend
pub mod Index
pub mod Server
pub mod Storage
pub mod Tests
