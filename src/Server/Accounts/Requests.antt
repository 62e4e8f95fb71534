-- ===== src/Server/Accounts/Requests.antt =====
-- What a request counts in server.c, and what several count together.
use objmapper.Base.{ℕ, ◌+◌, ◌%◌, ◌^◌, ◌≡◌, refl, ap, ◌∙◌, Bool, true, false, arith}
use objmapper.Protocol.Types.{Request}
use objmapper.Server.State.{Stats, World, RequestAnswers, count_request}
use objmapper.Server.Handlers.{dispatch, or_count_error, text_request, serve_request}
use objmapper.Server.Accounts.Tally.{Tally, dispatch-Tally}

-- From `s` to `s'` this many requests were counted, each once, as a get, a put, a deletion or an
-- error, and this many errors besides; as many connections are active. All counters are on 64 bits.
pub record IsAccounted (requests broken : ℕ) (s s' : Stats) : Type 0 where
  pub gets : ℕ
  pub puts : ℕ
  pub deletes : ℕ
  pub errors : ℕ
  pub each : gets + puts + deletes + errors ≡ requests
  pub total_counted : s'.requests_total % 2 ^ 64 ≡ (s.requests_total + requests) % 2 ^ 64
  pub gets_counted : s'.gets % 2 ^ 64 ≡ (s.gets + gets) % 2 ^ 64
  pub puts_counted : s'.puts % 2 ^ 64 ≡ (s.puts + puts) % 2 ^ 64
  pub deletes_counted : s'.deletes % 2 ^ 64 ≡ (s.deletes + deletes) % 2 ^ 64
  pub errors_counted : s'.errors % 2 ^ 64 ≡ (s.errors + (errors + broken)) % 2 ^ 64
  pub active : s'.active_connections % 2 ^ 64 ≡ s.active_connections % 2 ^ 64

or_count_error-IsAccounted :
    (s : Stats) (r : Bool × World)
    → Tally (record s { requests_total = (s.requests_total + 1) % 2 ^ 64 }) r
    → IsAccounted 1 0 s (or_count_error r).stats
unfolding or_count_error
or_count_error-IsAccounted s (true, w) t =
    let total = t.total in
    let errors = t.errors in
    record {
      gets = t.gets;
      puts = t.puts;
      deletes = t.deletes;
      errors = 0;
      each = (let one = t.one in omega (arith, one));
      total_counted = omega (arith, total);
      gets_counted = t.gets_counted;
      puts_counted = t.puts_counted;
      deletes_counted = t.deletes_counted;
      errors_counted = omega (arith, errors);
      active = ap (λ n. n % 2 ^ 64) t.active;
    }
or_count_error-IsAccounted s (false, w) t =
    let total = t.total in
    let errors = t.errors in
    record {
      gets = t.gets;
      puts = t.puts;
      deletes = t.deletes;
      errors = 1;
      each = (let one = t.one in omega (arith, one));
      total_counted = omega (arith, total);
      gets_counted = t.gets_counted;
      puts_counted = t.puts_counted;
      deletes_counted = t.deletes_counted;
      errors_counted = omega (arith, errors);
      active = ap (λ n. n % 2 ^ 64) t.active;
    }

pub serve_request-IsAccounted :
    (answers : RequestAnswers) (req : Request) (w : World)
    → IsAccounted 1 0 w.stats (serve_request answers req w).stats
unfolding serve_request
serve_request-IsAccounted answers req w =
    or_count_error-IsAccounted w.stats (dispatch answers (text_request req) (count_request w))
      (dispatch-Tally answers (text_request req) (count_request w))

pub unchanged : (s : Stats) → IsAccounted 0 0 s s
unchanged s = record {
  gets = 0;
  puts = 0;
  deletes = 0;
  errors = 0;
  each = refl;
  total_counted = omega arith;
  gets_counted = omega arith;
  puts_counted = omega arith;
  deletes_counted = omega arith;
  errors_counted = omega arith;
  active = refl;
}

sum :
    (a b c x y : ℕ)
    → b % 2 ^ 64 ≡ (a + x) % 2 ^ 64
    → c % 2 ^ 64 ≡ (b + y) % 2 ^ 64
    → c % 2 ^ 64 ≡ (a + (x + y)) % 2 ^ 64
sum a b c x y h k = omega (arith, h, k)

pub IsAccounted-trans :
    (k l p q : ℕ) (a b c : Stats)
    → IsAccounted k p a b
    → IsAccounted l q b c
    → IsAccounted (k + l) (p + q) a c
IsAccounted-trans k l p q a b c r s = record {
  gets = r.gets + s.gets;
  puts = r.puts + s.puts;
  deletes = r.deletes + s.deletes;
  errors = r.errors + s.errors;
  each = (let one = r.each in let two = s.each in omega (arith, one, two));
  total_counted =
      sum a.requests_total b.requests_total c.requests_total k l r.total_counted s.total_counted;
  gets_counted = sum a.gets b.gets c.gets r.gets s.gets r.gets_counted s.gets_counted;
  puts_counted = sum a.puts b.puts c.puts r.puts s.puts r.puts_counted s.puts_counted;
  deletes_counted =
      sum a.deletes b.deletes c.deletes r.deletes s.deletes r.deletes_counted s.deletes_counted;
  errors_counted =
      (let one = r.errors_counted in let two = s.errors_counted in omega (arith, one, two));
  active = s.active ∙ r.active;
}
