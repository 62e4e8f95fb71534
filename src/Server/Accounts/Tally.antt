-- ===== src/Server/Accounts/Tally.antt =====
-- What a handler of server.c counts.
use objmapper.Base.{
  ℕ, ◌+◌, ◌%◌, ◌^◌, ◌≡◌, refl, Bool, true, false, ◌||◌, Option, none, some, ◌==◌, bytes_eq,
  if◌then◌else◌, subst, arith,
}
use objmapper.Protocol.Types.{Request, mode_fdpass}
use objmapper.Index.Entry.{FdRef}
use objmapper.Backend.Objects.{backend_get_object, backend_delete_object, backend_create_object}
use objmapper.Server.State.{
  Stats, World, RequestAnswers, with_store, ok_response, respond, respond_error, release, count_get,
  count_put, count_delete,
}
use objmapper.Server.Handlers.{
  pass_fd, counted, answer_get, handle_get, answer_put, create_request, delete_old, handle_put,
  answer_delete, handle_delete, handle_list, starts_with, delete_prefix, list_uri, backend_prefix,
  deleted_request, get_or_put, dispatch,
}

abbrev pub one_if : Bool → ℕ
one_if true = 1
one_if false = 0

-- A handler counts itself once, under one of three names, if it succeeds, and nothing else.
pub record Tally (s : Stats) (r : Bool × World) : Type 0 where
  pub gets : ℕ
  pub puts : ℕ
  pub deletes : ℕ
  pub one : gets + puts + deletes ≡ one_if r.0
  pub gets_counted : r.1.stats.gets % 2 ^ 64 ≡ (s.gets + gets) % 2 ^ 64
  pub puts_counted : r.1.stats.puts % 2 ^ 64 ≡ (s.puts + puts) % 2 ^ 64
  pub deletes_counted : r.1.stats.deletes % 2 ^ 64 ≡ (s.deletes + deletes) % 2 ^ 64
  pub total : r.1.stats.requests_total ≡ s.requests_total
  pub errors : r.1.stats.errors ≡ s.errors
  pub active : r.1.stats.active_connections ≡ s.active_connections

nothing : (w : World) → Tally w.stats (false, w)
nothing w = record {
  gets = 0;
  puts = 0;
  deletes = 0;
  one = refl;
  gets_counted = omega arith;
  puts_counted = omega arith;
  deletes_counted = omega arith;
  total = refl;
  errors = refl;
  active = refl;
}

pick :
    (b : Bool) (s : Stats) (x y : Bool × World)
    → Tally s x
    → Tally s y
    → Tally s (if b then x else y)
pick true s x y h k = h
pick false s x y h k = k

counted-get : (b : Bool) (w : World) → Tally w.stats (counted count_get (b, w))
unfolding counted
counted-get true w = record {
  gets = 1;
  puts = 0;
  deletes = 0;
  one = refl;
  gets_counted = omega arith;
  puts_counted = omega arith;
  deletes_counted = omega arith;
  total = refl;
  errors = refl;
  active = refl;
}
counted-get false w = nothing w

counted-put : (b : Bool) (w : World) → Tally w.stats (counted count_put (b, w))
unfolding counted
counted-put true w = record {
  gets = 0;
  puts = 1;
  deletes = 0;
  one = refl;
  gets_counted = omega arith;
  puts_counted = omega arith;
  deletes_counted = omega arith;
  total = refl;
  errors = refl;
  active = refl;
}
counted-put false w = nothing w

counted-delete : (b : Bool) (w : World) → Tally w.stats (counted count_delete (b, w))
unfolding counted
counted-delete true w = record {
  gets = 0;
  puts = 0;
  deletes = 1;
  one = refl;
  gets_counted = omega arith;
  puts_counted = omega arith;
  deletes_counted = omega arith;
  total = refl;
  errors = refl;
  active = refl;
}
counted-delete false w = nothing w

answer_get-Tally :
    (o : Option FdRef) (req : Request) (w : World) → Tally w.stats (answer_get o req w)
unfolding answer_get pass_fd respond respond_error release
answer_get-Tally none req w = nothing (respond_error req.id _ _ w)
answer_get-Tally (some ref) req w =
    pick (req.mode == mode_fdpass) w.stats _ _
      (counted-get (pass_fd req ref w).0 (pass_fd req ref w).1)
      (nothing (respond_error req.id _ _ (release ref w)))

answer_put-Tally :
    (o : Option FdRef) (req : Request) (w : World) → Tally w.stats (answer_put o req w)
unfolding answer_put pass_fd respond respond_error release
answer_put-Tally none req w = nothing (respond_error req.id _ _ w)
answer_put-Tally (some ref) req w =
    pick (req.mode == mode_fdpass) w.stats _ _
      (counted-put (pass_fd req ref w).0 (pass_fd req ref w).1)
      (nothing (respond_error req.id _ _ (release ref w)))

delete_old-stats :
    (o : Option FdRef) (answers : RequestAnswers) (req : Request) (w : World)
    → (delete_old o answers req w).stats ≡ w.stats
unfolding delete_old release
delete_old-stats none answers req w = refl
delete_old-stats (some ref) answers req w = refl

handle_put-Tally :
    (answers : RequestAnswers) (req : Request) (w : World)
    → Tally w.stats (handle_put answers req w)
unfolding handle_put
handle_put-Tally answers req w =
    let got = backend_get_object answers.got answers.got_at req.uri w.manager w.memory in
    let cleared = delete_old got.0 answers req (with_store got.1 w) in
    let new =
      backend_create_object answers.made answers.created (create_request req) cleared.manager
        cleared.memory in
    subst (λ s. Tally s (answer_put new.0 req (with_store new.1 cleared)))
      (delete_old-stats got.0 answers req (with_store got.1 w))
      (answer_put-Tally new.0 req (with_store new.1 cleared))

answer_delete-Tally : (b : Bool) (req : Request) (w : World) → Tally w.stats (answer_delete b req w)
unfolding answer_delete respond respond_error
answer_delete-Tally true req w =
    let sent = respond (ok_response req.id none 1) w in counted-delete sent.0 sent.1
answer_delete-Tally false req w = nothing (respond_error req.id _ _ w)

get_or_put-Tally :
    (o : Option FdRef) (answers : RequestAnswers) (req : Request) (w : World)
    → Tally w.stats (get_or_put o answers req w)
unfolding get_or_put handle_get release
get_or_put-Tally none answers req w = handle_put-Tally answers req w
get_or_put-Tally (some ref) answers req w =
    let released = release ref w in
    let got =
      backend_get_object answers.got answers.got_at req.uri released.manager released.memory in
    answer_get-Tally got.0 req (with_store got.1 released)

pub dispatch-Tally :
    (answers : RequestAnswers) (req : Request) (w : World) → Tally w.stats (dispatch answers req w)
unfolding dispatch handle_delete handle_list respond_error
dispatch-Tally answers req w =
    let checked =
      backend_get_object answers.checked answers.checked_at req.uri w.manager w.memory in
    let short = deleted_request req in
    let deleted = backend_delete_object answers.deleted short.uri w.manager w.memory in
    pick (starts_with delete_prefix req.uri) w.stats _ _
      (answer_delete-Tally deleted.0 short (with_store deleted.1 w))
      (pick (bytes_eq req.uri list_uri || starts_with backend_prefix req.uri) w.stats _ _
        (nothing (respond_error req.id _ _ w))
        (get_or_put-Tally checked.0 answers req (with_store checked.1 w)))
