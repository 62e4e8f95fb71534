-- ===== src/Server/Confinement.antt =====
-- What a client asks of the server never puts an ephemeral object on a persistent backend.
use objmapper.Base.{
  Bool, true, false, ◌||◌, Option, none, some, List, [], ◌∷◌, ◌==◌, bytes_eq, if◌then◌else◌,
}
use objmapper.Protocol.Types.{
  Request, Params, Outcome, done, closing, failed, stuck, version_1, mode_fdpass,
}
use objmapper.Protocol.Request.{server_recv_request}
use objmapper.Protocol.Handshake.{server_handshake}
use objmapper.Index.Entry.{FdRef}
use objmapper.Backend.Registry.Roles.{HasRoles, SameRoles-self, SameRoles-HasRoles}
use objmapper.Backend.Objects.{backend_get_object, backend_delete_object, backend_create_object}
use objmapper.Backend.Confinement.{IsConfined}
use objmapper.Backend.Confinement.Scan.{Keeps, Keeps-trans}
use objmapper.Backend.Confinement.Calls.{create, get, delete, run_call-Keeps, released, Same-Keeps}
use objmapper.Server.State.{
  World, RequestAnswers, with_store, respond, respond_error, release, count_get, count_put,
  count_delete, count_request, count_connection,
}
use objmapper.Server.Handlers.{
  pass_fd, counted, answer_get, handle_get, answer_put, create_request, delete_old, handle_put,
  answer_delete, handle_delete, handle_list, starts_with, delete_prefix, list_uri, backend_prefix,
  deleted_request, get_or_put, dispatch, or_count_error, text_request, serve_request, received,
  serve_step, serve, hello, shaken, client_thread,
}

abbrev KeepsWorld : World → World → Type 0
KeepsWorld w w' = Keeps w.manager w'.manager w.memory w'.memory

release-Keeps : (ref : FdRef) (w : World) → KeepsWorld w (release ref w)
unfolding release
release-Keeps ref w = Same-Keeps (released ref w.manager w.memory)

same_world : (w : World) → KeepsWorld w w
same_world w = record { roles = SameRoles-self w.manager; confined = λ ok. ok }

pick :
    (b : Bool) (w : World) (x y : Bool × World)
    → KeepsWorld w x.1
    → KeepsWorld w y.1
    → KeepsWorld w (if b then x else y).1
pick true w x y h k = h
pick false w x y h k = k

-- A counter that is no part of the store.
counted-Keeps :
    (count : World → World) (w : World) (r : Bool × World)
    → ((v : World) → KeepsWorld v (count v))
    → KeepsWorld w r.1
    → KeepsWorld w (counted count r).1
unfolding counted
counted-Keeps count w (true, v) counts k = Keeps-trans k (counts v)
counted-Keeps count w (false, v) counts k = k

pass_fd-Keeps : (req : Request) (ref : FdRef) (w : World) → KeepsWorld w (pass_fd req ref w).1
unfolding pass_fd respond release
pass_fd-Keeps req ref w = Same-Keeps (released ref w.manager w.memory)

answer_get-Keeps :
    (o : Option FdRef) (req : Request) (w : World) → KeepsWorld w (answer_get o req w).1
unfolding answer_get respond_error release
answer_get-Keeps none req w = same_world w
answer_get-Keeps (some ref) req w =
    pick (req.mode == mode_fdpass) w _ _
      (counted-Keeps count_get w (pass_fd req ref w) (λ v. same_world v) (pass_fd-Keeps req ref w))
      (Same-Keeps (released ref w.manager w.memory))

answer_put-Keeps :
    (o : Option FdRef) (req : Request) (w : World) → KeepsWorld w (answer_put o req w).1
unfolding answer_put respond_error release
answer_put-Keeps none req w = same_world w
answer_put-Keeps (some ref) req w =
    pick (req.mode == mode_fdpass) w _ _
      (counted-Keeps count_put w (pass_fd req ref w) (λ v. same_world v) (pass_fd-Keeps req ref w))
      (Same-Keeps (released ref w.manager w.memory))

handle_get-Keeps :
    (answers : RequestAnswers) (req : Request) (w : World)
    → KeepsWorld w (handle_get answers req w).1
unfolding handle_get
handle_get-Keeps answers req w =
    let got = backend_get_object answers.got answers.got_at req.uri w.manager w.memory in
    Keeps-trans (run_call-Keeps (get answers.got answers.got_at req.uri) w.manager w.memory tt)
      (answer_get-Keeps got.0 req (with_store got.1 w))

delete_old-Keeps :
    (o : Option FdRef) (answers : RequestAnswers) (req : Request) (w : World)
    → KeepsWorld w (delete_old o answers req w)
unfolding delete_old
delete_old-Keeps none answers req w = same_world w
delete_old-Keeps (some ref) answers req w = Keeps-trans (release-Keeps ref w) (
    run_call-Keeps (delete answers.deleted req.uri) (release ref w).manager (release ref w).memory
      tt)

handle_put-Keeps :
    (answers : RequestAnswers) (req : Request) (w : World)
    → KeepsWorld w (handle_put answers req w).1
unfolding handle_put
handle_put-Keeps answers req w =
    let got = backend_get_object answers.got answers.got_at req.uri w.manager w.memory in
    let cleared = delete_old got.0 answers req (with_store got.1 w) in
    let new =
      backend_create_object answers.made answers.created (create_request req) cleared.manager
        cleared.memory in
    Keeps-trans (run_call-Keeps (get answers.got answers.got_at req.uri) w.manager w.memory tt) (
      Keeps-trans (delete_old-Keeps got.0 answers req (with_store got.1 w)) (
        Keeps-trans
          (run_call-Keeps (create answers.made answers.created (create_request req)) cleared.manager
            cleared.memory (λ odd. cc))
          (answer_put-Keeps new.0 req (with_store new.1 cleared))))

answer_delete-Keeps :
    (b : Bool) (req : Request) (w : World) → KeepsWorld w (answer_delete b req w).1
unfolding answer_delete respond respond_error
answer_delete-Keeps true req w = counted-Keeps count_delete w _ (λ v. same_world v) (same_world w)
answer_delete-Keeps false req w = same_world w

get_or_put-Keeps :
    (o : Option FdRef) (answers : RequestAnswers) (req : Request) (w : World)
    → KeepsWorld w (get_or_put o answers req w).1
unfolding get_or_put
get_or_put-Keeps none answers req w = handle_put-Keeps answers req w
get_or_put-Keeps (some ref) answers req w =
    Keeps-trans (release-Keeps ref w) (handle_get-Keeps answers req (release ref w))

dispatch-Keeps :
    (answers : RequestAnswers) (req : Request) (w : World) → KeepsWorld w (dispatch answers req w).1
unfolding dispatch handle_delete handle_list respond_error
dispatch-Keeps answers req w =
    let checked =
      backend_get_object answers.checked answers.checked_at req.uri w.manager w.memory in
    let short = deleted_request req in
    let deleted = backend_delete_object answers.deleted short.uri w.manager w.memory in
    pick (starts_with delete_prefix req.uri) w _ _
      (Keeps-trans (run_call-Keeps (delete answers.deleted short.uri) w.manager w.memory tt)
        (answer_delete-Keeps deleted.0 short (with_store deleted.1 w)))
      (pick (bytes_eq req.uri list_uri || starts_with backend_prefix req.uri) w _ _ (same_world w) (
        Keeps-trans
          (run_call-Keeps (get answers.checked answers.checked_at req.uri) w.manager w.memory tt)
          (get_or_put-Keeps checked.0 answers req (with_store checked.1 w))))

or_count_error-Keeps :
    (w : World) (r : Bool × World) → KeepsWorld w r.1 → KeepsWorld w (or_count_error r)
unfolding or_count_error
or_count_error-Keeps w (true, v) k = k
or_count_error-Keeps w (false, v) k = Keeps-trans k (same_world v)

received-Keeps :
    (params : Params) (answers : RequestAnswers) (o : Outcome Request) (w : World)
    → KeepsWorld w (received params answers o w).1
unfolding received serve_request
received-Keeps params answers (done req) w =
    or_count_error-Keeps w (dispatch answers (text_request req) (count_request w))
      (dispatch-Keeps answers (text_request req) (count_request w))
received-Keeps params answers closing w = same_world w
received-Keeps params answers failed w =
    pick (params.version == version_1) w _ _ (same_world w) (same_world w)
received-Keeps params answers stuck w = same_world w

serve-Keeps :
    (params : Params) (answers : List RequestAnswers) (w : World)
    → KeepsWorld w (serve params answers w)
unfolding serve serve_step
serve-Keeps params [] w = same_world w
serve-Keeps params (a ∷ rest) w =
    let got = server_recv_request w.connection in
    let after = received params a got.0 (record w { connection = got.1 }) in
    on after.0 after.1 (serve params rest after.1)
      (received-Keeps params a got.0 (record w { connection = got.1 }))
      (serve-Keeps params rest after.1)
  where
    on :
        (b : Bool) (v u : World)
        → KeepsWorld w v
        → KeepsWorld v u
        → KeepsWorld w (if b then u else v)
    on true v u h k = Keeps-trans h k
    on false v u h k = h

shaken-Keeps :
    (o : Outcome Params) (answers : List RequestAnswers) (w : World)
    → KeepsWorld w (shaken o answers w)
unfolding shaken
shaken-Keeps (done params) answers w = serve-Keeps params answers w
shaken-Keeps closing answers w = same_world w
shaken-Keeps failed answers w = same_world w
shaken-Keeps stuck answers w = same_world w

-- Whatever bytes a client sends and whatever the kernel answers: if the backends have their roles
-- and every entry with the ephemeral flag is on a backend for ephemeral objects when the thread of
-- the client starts, then both hold when it ends.
pub client_thread-IsConfined :
    (answers : List RequestAnswers) (w : World)
    → HasRoles w.manager
    → IsConfined w.manager w.memory
    → HasRoles (client_thread answers w).manager
      × IsConfined (client_thread answers w).manager (client_thread answers w).memory
unfolding client_thread
client_thread-IsConfined answers w roles confined =
    let connected = count_connection 1 w in
    let shook = server_handshake hello connected.connection in
    let kept = shaken-Keeps shook.0 answers (record connected { connection = shook.1 }) in
    (SameRoles-HasRoles kept.roles roles, kept.confined confined)
