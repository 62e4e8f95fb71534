-- ===== src/Server/State.antt =====
-- server.c: the global state of the server, and how a thread answers on its connection.
use objmapper.Base.{ℕ, Bool, true, false, Option, none, some, List}
use objmapper.Protocol.Types.{Connection, Response, Outcome, done, closing, failed, stuck}
use objmapper.Protocol.Response.{server_send_response}
use objmapper.Protocol.Metadata.{server_send_error}
use objmapper.Index.Entry.{Memory, FdRef, fd_ref_release}
use objmapper.Backend.Types.{Manager, Opened, plus}

-- g_stats.
pub record Stats : Type 0 where
  pub requests_total : ℕ
  pub gets : ℕ
  pub puts : ℕ
  pub deletes : ℕ
  pub errors : ℕ
  pub active_connections : ℕ

-- g_stats, g_backend_mgr with the memory of its entries, and the connection of one thread.
pub record World : Type 0 where
  pub stats : Stats
  pub manager : Manager
  pub memory : Memory
  pub connection : Connection

-- What the kernel answers while one request is served: to the lookup that tells GET from PUT, to
-- those of the handlers, with the times of the accesses, and to mkdir and open for a new object.
pub record RequestAnswers : Type 0 where
  pub checked : Opened
  pub checked_at : ℕ
  pub got : Opened
  pub got_at : ℕ
  pub deleted : Opened
  pub made : List ℕ → Bool
  pub created : Option ℕ

abbrev pub status_not_found : ℕ
status_not_found = 1

abbrev pub status_unsupported_op : ℕ
status_unsupported_op = 5

abbrev pub status_storage_error : ℕ
status_storage_error = 17

-- OBJM_REQ_PRIORITY.
abbrev pub req_priority : ℕ
req_priority = 2

-- `ret == 0` of a call on the connection.
abbrev pub is_done {ℓ} : {A : Type ℓ} → Outcome A → Bool
is_done (done a) = true
is_done closing = false
is_done failed = false
is_done stuck = false

abbrev pub with_store : Manager × Memory → World → World
with_store store w = record w { manager = store.0; memory = store.1 }

-- A response with status OK and no metadata.
abbrev pub ok_response : ℕ → Option ℕ → ℕ → Response
ok_response id fd content_len = record {
  request_id = id;
  status = 0;
  fd = fd;
  content_len = content_len;
  metadata = none;
  metadata_len = 0;
  error_msg = none;
}

unfoldable pub respond : Response → World → Bool × World
respond resp w =
    let sent = server_send_response resp w.connection in
    (is_done sent.0, record w { connection = sent.1 })

-- What the error response returns is not read.
unfoldable pub respond_error : ℕ → ℕ → List ℕ → World → World
respond_error id status msg w = record w {
  connection = (server_send_error id status (some msg) w.connection).1;
}

unfoldable pub release : FdRef → World → World
release ref w = record w { memory = (fd_ref_release ref w.memory).1 }

abbrev pub count_get : World → World
count_get w = record w { stats = record w.stats { gets = plus w.stats.gets 1 } }

abbrev pub count_put : World → World
count_put w = record w { stats = record w.stats { puts = plus w.stats.puts 1 } }

abbrev pub count_delete : World → World
count_delete w = record w { stats = record w.stats { deletes = plus w.stats.deletes 1 } }

abbrev pub count_error : World → World
count_error w = record w { stats = record w.stats { errors = plus w.stats.errors 1 } }

abbrev pub count_request : World → World
count_request w = record w {
  stats = record w.stats { requests_total = plus w.stats.requests_total 1 };
}

-- Added to the number of connections: 1, or 2^64 - 1 for one less.
abbrev pub count_connection : ℕ → World → World
count_connection n w = record w {
  stats = record w.stats { active_connections = plus w.stats.active_connections n };
}
