-- ===== src/Server/Handlers.antt =====
-- server.c: the handlers of requests, and the thread of a client.
use objmapper.Base.{
  ℕ, ◌-◌, ◌^◌, Bool, true, false, ◌||◌, Option, none, some, List, [], ◌∷◌, take, drop, length, ◌==◌,
  bytes_eq, if◌then◌else◌,
}
use objmapper.Protocol.Types.{
  Request, Hello, Params, Outcome, done, closing, failed, stuck, version_1, mode_fdpass,
  max_uri_len,
}
use objmapper.Protocol.Request.{server_recv_request}
use objmapper.Protocol.Handshake.{server_handshake}
use objmapper.Index.Entry.{FdRef}
use objmapper.Index.Persist.{c_string}
use objmapper.Backend.Types.{CreateReq, has_flag}
use objmapper.Backend.Objects.{backend_get_object, backend_delete_object, backend_create_object}
use objmapper.Server.State.{
  World, RequestAnswers, status_not_found, status_unsupported_op, status_storage_error,
  req_priority, with_store, ok_response, respond, respond_error, release, count_get, count_put,
  count_delete, count_error, count_request, count_connection,
}

-- "Object not found"
abbrev not_found_text : List ℕ
not_found_text =
    b'O' ∷ b'b' ∷ b'j' ∷ b'e' ∷ b'c' ∷ b't' ∷ b' ' ∷ b'n' ∷ b'o' ∷ b't' ∷ b' ' ∷ b'f' ∷ b'o' ∷ b'u'
    ∷ b'n' ∷ b'd' ∷ []

-- "Only FD pass mode supported for GET"
abbrev get_mode_text : List ℕ
get_mode_text =
    b'O' ∷ b'n' ∷ b'l' ∷ b'y' ∷ b' ' ∷ b'F' ∷ b'D' ∷ b' ' ∷ b'p' ∷ b'a' ∷ b's' ∷ b's' ∷ b' ' ∷ b'm'
    ∷ b'o' ∷ b'd' ∷ b'e' ∷ b' ' ∷ b's' ∷ b'u' ∷ b'p' ∷ b'p' ∷ b'o' ∷ b'r' ∷ b't' ∷ b'e' ∷ b'd'
    ∷ b' ' ∷ b'f' ∷ b'o' ∷ b'r' ∷ b' ' ∷ b'G' ∷ b'E' ∷ b'T' ∷ []

-- "Only FD pass mode supported for PUT"
abbrev put_mode_text : List ℕ
put_mode_text =
    b'O' ∷ b'n' ∷ b'l' ∷ b'y' ∷ b' ' ∷ b'F' ∷ b'D' ∷ b' ' ∷ b'p' ∷ b'a' ∷ b's' ∷ b's' ∷ b' ' ∷ b'm'
    ∷ b'o' ∷ b'd' ∷ b'e' ∷ b' ' ∷ b's' ∷ b'u' ∷ b'p' ∷ b'p' ∷ b'o' ∷ b'r' ∷ b't' ∷ b'e' ∷ b'd'
    ∷ b' ' ∷ b'f' ∷ b'o' ∷ b'r' ∷ b' ' ∷ b'P' ∷ b'U' ∷ b'T' ∷ []

-- "Failed to create object"
abbrev create_text : List ℕ
create_text =
    b'F' ∷ b'a' ∷ b'i' ∷ b'l' ∷ b'e' ∷ b'd' ∷ b' ' ∷ b't' ∷ b'o' ∷ b' ' ∷ b'c' ∷ b'r' ∷ b'e' ∷ b'a'
    ∷ b't' ∷ b'e' ∷ b' ' ∷ b'o' ∷ b'b' ∷ b'j' ∷ b'e' ∷ b'c' ∷ b't' ∷ []

-- "LIST is disabled - use management API"
abbrev list_text : List ℕ
list_text =
    b'L' ∷ b'I' ∷ b'S' ∷ b'T' ∷ b' ' ∷ b'i' ∷ b's' ∷ b' ' ∷ b'd' ∷ b'i' ∷ b's' ∷ b'a' ∷ b'b' ∷ b'l'
    ∷ b'e' ∷ b'd' ∷ b' ' ∷ b'-' ∷ b' ' ∷ b'u' ∷ b's' ∷ b'e' ∷ b' ' ∷ b'm' ∷ b'a' ∷ b'n' ∷ b'a'
    ∷ b'g' ∷ b'e' ∷ b'm' ∷ b'e' ∷ b'n' ∷ b't' ∷ b' ' ∷ b'A' ∷ b'P' ∷ b'I' ∷ []

-- The descriptor of a reference is sent, and the reference released.
unfoldable pub pass_fd : Request → FdRef → World → Bool × World
pass_fd req ref w =
    let sent = respond (ok_response req.id ref.fd 0) w in (sent.0, release ref sent.1)

-- `if (ret < 0) return -1;` before a counter.
unfoldable pub counted : (World → World) → Bool × World → Bool × World
counted count (true, w) = (true, count w)
counted count (false, w) = (false, w)

unfoldable pub answer_get : Option FdRef → Request → World → Bool × World
unfolding pass_fd counted
answer_get none req w = (false, respond_error req.id status_not_found not_found_text w)
answer_get (some ref) req w =
    if req.mode == mode_fdpass
    then counted count_get (pass_fd req ref w)
    else (false, respond_error req.id status_unsupported_op get_mode_text (release ref w))

unfoldable pub handle_get : RequestAnswers → Request → World → Bool × World
unfolding answer_get
handle_get answers req w =
    let got = backend_get_object answers.got answers.got_at req.uri w.manager w.memory in
    answer_get got.0 req (with_store got.1 w)

unfoldable pub answer_put : Option FdRef → Request → World → Bool × World
unfolding pass_fd counted
answer_put none req w = (false, respond_error req.id status_storage_error create_text w)
answer_put (some ref) req w =
    if req.mode == mode_fdpass
    then counted count_put (pass_fd req ref w)
    else (false, respond_error req.id status_unsupported_op put_mode_text (release ref w))

abbrev pub create_request : Request → CreateReq
create_request req = record {
  uri = req.uri;
  backend_id = none;
  ephemeral = has_flag req.flags req_priority;
  size_hint = 0;
  flags = 0;
}

-- An older version of the object is deleted.
unfoldable pub delete_old : Option FdRef → RequestAnswers → Request → World → World
delete_old none answers req w = w
delete_old (some ref) answers req w =
    let released = release ref w in
    with_store (backend_delete_object answers.deleted req.uri released.manager released.memory).1
      released

unfoldable pub handle_put : RequestAnswers → Request → World → Bool × World
unfolding answer_put delete_old
handle_put answers req w =
    let got = backend_get_object answers.got answers.got_at req.uri w.manager w.memory in
    let cleared = delete_old got.0 answers req (with_store got.1 w) in
    let new =
      backend_create_object answers.made answers.created (create_request req) cleared.manager
        cleared.memory in
    answer_put new.0 req (with_store new.1 cleared)

unfoldable pub answer_delete : Bool → Request → World → Bool × World
unfolding counted
answer_delete true req w = counted count_delete (respond (ok_response req.id none 1) w)
answer_delete false req w = (false, respond_error req.id status_not_found not_found_text w)

unfoldable pub handle_delete : RequestAnswers → Request → World → Bool × World
unfolding answer_delete
handle_delete answers req w =
    let deleted = backend_delete_object answers.deleted req.uri w.manager w.memory in
    answer_delete deleted.0 req (with_store deleted.1 w)

unfoldable pub handle_list : Request → World → Bool × World
handle_list req w = (false, respond_error req.id status_unsupported_op list_text w)

-- "/delete/"
abbrev pub delete_prefix : List ℕ
delete_prefix = b'/' ∷ b'd' ∷ b'e' ∷ b'l' ∷ b'e' ∷ b't' ∷ b'e' ∷ b'/' ∷ []

-- "/list"
abbrev pub list_uri : List ℕ
list_uri = b'/' ∷ b'l' ∷ b'i' ∷ b's' ∷ b't' ∷ []

-- "/backend/"
abbrev pub backend_prefix : List ℕ
backend_prefix = b'/' ∷ b'b' ∷ b'a' ∷ b'c' ∷ b'k' ∷ b'e' ∷ b'n' ∷ b'd' ∷ b'/' ∷ []

-- `strncmp(uri, prefix, strlen(prefix)) == 0`
abbrev pub starts_with : List ℕ → List ℕ → Bool
starts_with prefix uri = bytes_eq (take (length prefix) uri) prefix

-- The URI without "/delete", in a buffer of OBJM_MAX_URI_LEN.
abbrev pub deleted_request : Request → Request
deleted_request req = record req { uri = take (max_uri_len - 1) (drop 7 req.uri) }

-- The reference of the lookup that tells GET from PUT is released.
unfoldable pub get_or_put : Option FdRef → RequestAnswers → Request → World → Bool × World
unfolding handle_get handle_put
get_or_put none answers req w = handle_put answers req w
get_or_put (some ref) answers req w = handle_get answers req (release ref w)

unfoldable pub dispatch : RequestAnswers → Request → World → Bool × World
unfolding get_or_put handle_delete handle_list
dispatch answers req w =
    let checked =
      backend_get_object answers.checked answers.checked_at req.uri w.manager w.memory in
    if starts_with delete_prefix req.uri
    then handle_delete answers (deleted_request req) w
    else if bytes_eq req.uri list_uri || starts_with backend_prefix req.uri
    then handle_list req w
    else get_or_put checked.0 answers req (with_store checked.1 w)

-- `if (handle(...) < 0)` an error is counted.
unfoldable pub or_count_error : Bool × World → World
or_count_error (true, w) = w
or_count_error (false, w) = count_error w

-- The URI as a C string, which ends at its first 0.
unfoldable pub text_request : Request → Request
text_request req = record req { uri = c_string req.uri }

unfoldable pub serve_request : RequestAnswers → Request → World → World
unfolding dispatch or_count_error
serve_request answers req w = or_count_error (dispatch answers (text_request req) (count_request w))

-- Whether the loop goes on after a request was received or not.
unfoldable pub received : Params → RequestAnswers → Outcome Request → World → Bool × World
unfolding serve_request
received params answers (done req) w = (true, serve_request answers req w)
received params answers closing w = (false, w)
received params answers failed w =
    if params.version == version_1 then (false, w) else (false, count_error w)
received params answers stuck w = (false, w)

unfoldable pub serve_step : Params → RequestAnswers → World → Bool × World
unfolding received
serve_step params answers w =
    let got = server_recv_request w.connection in
    received params answers got.0 (record w { connection = got.1 })

-- The loop, which ends with the connection or when g_running is cleared: the list has the answers
-- of one round each.
unfoldable pub serve : Params → List RequestAnswers → World → World
unfolding serve_step
serve params [] w = w
serve params (answers ∷ rest) w =
    let after = serve_step params answers w in
    let continued = serve params rest after.1 in if after.0 then continued else after.1

abbrev pub hello : Hello
hello = record { capabilities = 0; max_pipeline = 1; backend_parallelism = 2 }

unfoldable pub shaken : Outcome Params → List RequestAnswers → World → World
unfolding serve
shaken (done params) answers w = serve params answers w
shaken closing answers w = w
shaken failed answers w = w
shaken stuck answers w = w

-- The thread of one client, from objm_server_create on; the connection of `w` is the new one.
unfoldable pub client_thread : List RequestAnswers → World → World
unfolding shaken
client_thread answers w =
    let connected = count_connection 1 w in
    let shook = server_handshake hello connected.connection in
    count_connection (2 ^ 64 - 1)
      (shaken shook.0 answers (record connected { connection = shook.1 }))
