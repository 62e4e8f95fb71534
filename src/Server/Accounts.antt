-- ===== src/Server/Accounts.antt =====
-- The counters of the server: a request is counted once as answered or as an error.
pub mod Tally
pub mod Requests
use objmapper.Base.{
  ℕ, ◌+◌, ◌%◌, ◌^◌, ◌≡◌, refl, sym, ap, ◌∙◌, Bool, true, false, ◌||◌, Option, none, some, List, [],
  ◌∷◌, ◌==◌, bytes_eq, if◌then◌else◌, subst, arith,
}
use objmapper.Protocol.Types.{
  Request, Params, Outcome, done, closing, failed, stuck, version_1, mode_fdpass,
}
use objmapper.Protocol.Request.{server_recv_request}
use objmapper.Protocol.Handshake.{server_handshake}
use objmapper.Index.Entry.{FdRef}
use objmapper.Backend.Objects.{backend_get_object, backend_delete_object, backend_create_object}
use objmapper.Server.State.{
  Stats, World, RequestAnswers, with_store, ok_response, respond, respond_error, release, count_get,
  is_done, count_put, count_delete, count_error, count_request, count_connection,
}
use objmapper.Server.Handlers.{
  pass_fd, counted, answer_get, handle_get, answer_put, create_request, delete_old, handle_put,
  answer_delete, handle_delete, handle_list, starts_with, delete_prefix, list_uri, backend_prefix,
  deleted_request, get_or_put, dispatch, or_count_error, text_request, serve_request, received,
  serve_step, serve, hello, shaken, client_thread,
}
use objmapper.Server.Accounts.Requests.{
  IsAccounted, unchanged, IsAccounted-trans, serve_request-IsAccounted,
}

-- What the receives of a loop return, up to the first that is no request.
pub receives : Params → List RequestAnswers → World → List (Outcome Request)
receives params [] w = []
receives params (a ∷ rest) w =
    let got = (server_recv_request w.connection).0 in
    let later = receives params rest (serve_step params a w).1 in
    got ∷ (if is_done got then later else [])

-- How many of them are requests.
abbrev pub requests_in : List (Outcome Request) → ℕ
requests_in [] = 0
requests_in (done req ∷ os) = 1 + requests_in os
requests_in (closing ∷ os) = requests_in os
requests_in (failed ∷ os) = requests_in os
requests_in (stuck ∷ os) = requests_in os

-- How many of them failed.
abbrev pub failures_in : List (Outcome Request) → ℕ
failures_in [] = 0
failures_in (done req ∷ os) = failures_in os
failures_in (closing ∷ os) = failures_in os
failures_in (failed ∷ os) = 1 + failures_in os
failures_in (stuck ∷ os) = failures_in os

-- A failed receive of a V1 client is no error.
abbrev pub broken_in : Params → List (Outcome Request) → ℕ
broken_in params os = if params.version == version_1 then 0 else failures_in os

broken-cons :
    (params : Params) (o : Outcome Request) (os : List (Outcome Request))
    → broken_in params (o ∷ os) ≡ broken_in params (o ∷ []) + broken_in params os
broken-cons params o os = on (params.version == version_1) o
  where
    on :
        (b : Bool) (o : Outcome Request)
        → (if b then 0 else failures_in (o ∷ os))
          ≡ (if b then 0 else failures_in (o ∷ [])) + (if b then 0 else failures_in os)
    on true o = refl
    on false (done req) = omega arith
    on false closing = omega arith
    on false failed = omega arith
    on false stuck = omega arith

requests-cons :
    (o : Outcome Request) (os : List (Outcome Request))
    → requests_in (o ∷ os) ≡ requests_in (o ∷ []) + requests_in os
requests-cons (done req) os = refl
requests-cons closing os = omega arith
requests-cons failed os = omega arith
requests-cons stuck os = omega arith

no_failure : (b : Bool) → ◌≡◌ {A = ℕ} (if b then 0 else 0) 0
no_failure true = refl
no_failure false = refl

-- One round.
received-IsAccounted :
    (params : Params) (answers : RequestAnswers) (o : Outcome Request) (w : World)
    → ((received params answers o w).0 ≡ is_done o)
      × IsAccounted
          (requests_in (o ∷ []))
          (broken_in params (o ∷ []))
          w.stats
          (received params answers o w).1.stats
unfolding received
received-IsAccounted params answers (done req) w = (
  refl,
  subst (λ n. IsAccounted 1 n w.stats (serve_request answers req w).stats)
      (sym (no_failure (params.version == version_1))) (serve_request-IsAccounted answers req w),
)
received-IsAccounted params answers closing w = (
  refl,
  subst (λ n. IsAccounted 0 n w.stats w.stats) (sym (no_failure (params.version == version_1)))
      (unchanged w.stats),
)
received-IsAccounted params answers stuck w = (
  refl,
  subst (λ n. IsAccounted 0 n w.stats w.stats) (sym (no_failure (params.version == version_1)))
      (unchanged w.stats),
)
received-IsAccounted params answers failed w = on (params.version == version_1)
  where
    on :
        (b : Bool)
        → (let r : Bool × World = if b then (false, w) else (false, count_error w) in
            (r.0 ≡ false) × IsAccounted 0 (if b then 0 else 1) w.stats r.1.stats)
    on true = (refl, unchanged w.stats)
    on false = (
      refl,
      record {
        gets = 0;
        puts = 0;
        deletes = 0;
        errors = 0;
        each = refl;
        total_counted = omega arith;
        gets_counted = omega arith;
        puts_counted = omega arith;
        deletes_counted = omega arith;
        errors_counted = omega arith;
        active = refl;
      },
    )

-- What a loop counts.
abbrev Served : Params → List (Outcome Request) → Stats → Stats → Type 0
Served params os s s' = IsAccounted (requests_in os) (broken_in params os) s s'

Served-cons :
    (params : Params) (o : Outcome Request) (os : List (Outcome Request)) (a b c : Stats)
    → Served params (o ∷ []) a b
    → Served params os b c
    → Served params (o ∷ os) a c
Served-cons params o os a b c r s =
    subst (λ k. IsAccounted k (broken_in params (o ∷ os)) a c) (sym (requests-cons o os))
      (subst (λ p. IsAccounted (requests_in (o ∷ []) + requests_in os) p a c)
        (sym (broken-cons params o os))
        (IsAccounted-trans (requests_in (o ∷ [])) (requests_in os) (broken_in params (o ∷ []))
          (broken_in params os) a b c r s))

serve-IsAccounted :
    (params : Params) (answers : List RequestAnswers) (w : World)
    → Served params (receives params answers w) w.stats (serve params answers w).stats
unfolding serve serve_step receives
serve-IsAccounted params [] w =
    subst (λ n. IsAccounted 0 n w.stats w.stats) (sym (no_failure (params.version == version_1)))
      (unchanged w.stats)
serve-IsAccounted params (a ∷ rest) w =
    let got = server_recv_request w.connection in
    let after = received params a got.0 (record w { connection = got.1 }) in
    let round = received-IsAccounted params a got.0 (record w { connection = got.1 }) in
    subst
      (λ b.
        Served params (got.0 ∷ (if is_done got.0 then receives params rest after.1 else [])) w.stats
          (if b then serve params rest after.1 else after.1).stats)
      (sym round.0)
      (on (is_done got.0) got.0 after.1 (receives params rest after.1) (serve params rest after.1)
        round.1 (serve-IsAccounted params rest after.1))
  where
    on :
        (b : Bool) (o : Outcome Request) (v : World) (os : List (Outcome Request)) (u : World)
        → Served params (o ∷ []) w.stats v.stats
        → Served params os v.stats u.stats
        → Served params (o ∷ (if b then os else [])) w.stats (if b then u else v).stats
    on true o v os u r s = Served-cons params o os w.stats v.stats u.stats r s
    on false o v os u r s = r

-- The receives of a client's thread, none where its handshake fails.
abbrev pub thread_receives : Outcome Params → List RequestAnswers → World → List (Outcome Request)
thread_receives (done params) answers w = receives params answers w
thread_receives closing answers w = []
thread_receives failed answers w = []
thread_receives stuck answers w = []

abbrev pub thread_broken : Outcome Params → List (Outcome Request) → ℕ
thread_broken (done params) os = broken_in params os
thread_broken closing os = 0
thread_broken failed os = 0
thread_broken stuck os = 0

shaken-IsAccounted :
    (o : Outcome Params) (answers : List RequestAnswers) (w : World)
    → IsAccounted
        (requests_in (thread_receives o answers w))
        (thread_broken o (thread_receives o answers w))
        w.stats
        (shaken o answers w).stats
unfolding shaken
shaken-IsAccounted (done params) answers w = serve-IsAccounted params answers w
shaken-IsAccounted closing answers w = unchanged w.stats
shaken-IsAccounted failed answers w = unchanged w.stats
shaken-IsAccounted stuck answers w = unchanged w.stats

-- When the thread of a client ends, whatever the client sends and the kernel answers: each request
-- that its receives returned is counted as a request, and once more, as a get, a put, a deletion or
-- an error; besides, a failed receive of a V2 client is counted as an error, a failed receive of a V1
-- client and a closed connection are not; and as many connections are active as before.
pub client_thread-IsAccounted :
    (answers : List RequestAnswers) (w : World)
    → (let connected = count_connection 1 w in
        let shook = server_handshake hello connected.connection in
        let os = thread_receives shook.0 answers (record connected { connection = shook.1 }) in
        IsAccounted
          (requests_in os)
          (thread_broken shook.0 os)
          w.stats
          (client_thread answers w).stats)
unfolding client_thread
client_thread-IsAccounted answers w =
    let connected = count_connection 1 w in
    let shook = server_handshake hello connected.connection in
    let ran = shaken-IsAccounted shook.0 answers (record connected { connection = shook.1 }) in
    record {
      gets = ran.gets;
      puts = ran.puts;
      deletes = ran.deletes;
      errors = ran.errors;
      each = ran.each;
      total_counted = ran.total_counted;
      gets_counted = ran.gets_counted;
      puts_counted = ran.puts_counted;
      deletes_counted = ran.deletes_counted;
      errors_counted = ran.errors_counted;
      active = (let active = ran.active in omega (arith, active));
    }
