-- ===== src/Protocol/Io/Reads.antt =====
-- What the reading actions of `Io` keep, on every path, and how much input they use up.
use objmapper.Base.{
  ℕ, ◌+◌, ◌≤◌, ◌≡◌, refl, Bool, true, false, List, [], ◌∷◌, length, arith, leb, leb→le, Bool-cases,
  inl, inr, if◌then◌else◌, length-drop, drop, ◌∙◌, ap,
}
use objmapper.Protocol.Types.{
  Connection, Cell, byte, rights, Outcome, done, closing, failed, stuck, ErrorText,
}
use objmapper.Protocol.Io.{
  M, pure, fail_with, or_error, or_error_on, continue, ◌>>=◌, recv_all, recv_fd, recv_fd_from,
}

-- Only the input and the error text may differ, and the input is no longer than before.
pub record Kept (c d : Connection) : Type 0 where
  pub version : d.version ≡ c.version
  pub pending : d.pending ≡ c.pending
  pub capacity : d.pending_capacity ≡ c.pending_capacity
  pub output : d.output ≡ c.output
  pub input : length d.input ≤ length c.input

abbrev pub ReadsTo {ℓ} : {A : Type ℓ} → ℕ → Connection → Outcome A × Connection → Type 0
ReadsTo k c (done a, d) = (length d.input + k ≤ length c.input) × Kept c d
ReadsTo k c (closing, d) = Kept c d
ReadsTo k c (failed, d) = Kept c d
ReadsTo k c (stuck, d) = ⊥

-- `m` ends, uses up `k` cells at least where it returns a value, and keeps the rest.
pub record Reads {ℓ} {A : Type ℓ} (m : M A) (k : ℕ) : Type ℓ where
  pub run : (c : Connection) → ReadsTo k c (m c)

Kept-self : (c : Connection) → Kept c c
Kept-self c = record {
  version = refl;
  pending = refl;
  capacity = refl;
  output = refl;
  input = omega arith;
}

Kept-trans : {c d e : Connection} → Kept c d → Kept d e → Kept c e
Kept-trans h g = record {
  version = g.version ∙ h.version;
  pending = g.pending ∙ h.pending;
  capacity = g.capacity ∙ h.capacity;
  output = g.output ∙ h.output;
  input = omega arith;
}

Kept-input :
    (c : Connection) (xs : List Cell)
    → length xs ≤ length c.input
    → Kept c (record c { input = xs })
Kept-input c xs h = record {
  version = refl;
  pending = refl;
  capacity = refl;
  output = refl;
  input = h;
}

Kept-error : {c d : Connection} (e : ErrorText) → Kept c d → Kept c (record d { error = e })
Kept-error e h = record {
  version = h.version;
  pending = h.pending;
  capacity = h.capacity;
  output = h.output;
  input = h.input;
}

pub Reads-pure {ℓ} : {A : Type ℓ} (a : A) → Reads (pure a) 0
Reads-pure a = record { run = λ c. (omega arith, Kept-self c) }

pub Reads-fail_with {ℓ} : (A : Type ℓ) (e : ErrorText) (k : ℕ) → Reads (fail_with {A = A} e) k
Reads-fail_with A e k = record { run = λ c. Kept-error e (Kept-self c) }

pub Reads-recv_all : (n : ℕ) → Reads (recv_all n) n
unfolding recv_all
Reads-recv_all n = record {
  run = λ c. elim (Bool-cases (leb n (length c.input))) [
    | inl e ↦ rw e (
      omega (arith, leb→le _ _ e, length-drop n c.input),
      Kept-input c (drop n c.input) (omega (arith, length-drop n c.input)),
    )
    | inr e ↦ rw e (Kept-input c [] (omega arith))
  ];
}

Reads-recv_fd_from :
    (cells : List Cell) (c : Connection) → c.input ≡ cells → ReadsTo 1 c (recv_fd_from cells c)
unfolding recv_fd_from
Reads-recv_fd_from [] c e = Kept-self c
Reads-recv_fd_from (byte b ∷ rest) c e = Kept-input c rest (omega (arith, ap length e))
Reads-recv_fd_from (rights fd ∷ rest) c e =
    (omega (arith, ap length e), Kept-input c rest (omega (arith, ap length e)))

pub Reads-recv_fd : Reads recv_fd 1
unfolding recv_fd
Reads-recv_fd = record { run = λ c. Reads-recv_fd_from c.input c refl }

Reads-or_error_on {ℓ} :
    {A : Type ℓ} (k : ℕ) (e : ErrorText) (c : Connection) (r : Outcome A × Connection)
    → ReadsTo k c r
    → ReadsTo k c (or_error_on e r)
Reads-or_error_on k e c (done a, d) h = h
Reads-or_error_on k e c (closing, d) h = h
Reads-or_error_on k e c (failed, d) h = Kept-error e h
Reads-or_error_on k e c (stuck, d) h = h

pub Reads-or_error {ℓ} :
    {A : Type ℓ} {m : M A} {k : ℕ} (e : ErrorText) → Reads m k → Reads (or_error m e) k
Reads-or_error {m} {k} e h = record { run = λ c. Reads-or_error_on k e c (m c) (h.run c) }

ReadsTo-shift {ℓ} :
    {A : Type ℓ} (j k : ℕ) {c d : Connection} (r : Outcome A × Connection)
    → length d.input + j ≤ length c.input
    → Kept c d
    → ReadsTo k d r
    → ReadsTo (j + k) c r
ReadsTo-shift j k (done a, e) less kept h = (omega arith, Kept-trans kept h.1)
ReadsTo-shift j k (closing, e) less kept h = Kept-trans kept h
ReadsTo-shift j k (failed, e) less kept h = Kept-trans kept h
ReadsTo-shift j k (stuck, e) less kept h = h

Reads-continue {ℓ κ} :
    {A : Type ℓ} {B : Type κ} (j k : ℕ) (c : Connection) (r : Outcome A × Connection) (f : A → M B)
    → ReadsTo j c r
    → ((a : A) → Reads (f a) k)
    → ReadsTo (j + k) c (continue r f)
Reads-continue j k c (done a, d) f h hf = ReadsTo-shift j k (f a d) h.0 h.1 ((hf a).run d)
Reads-continue j k c (closing, d) f h hf = h
Reads-continue j k c (failed, d) f h hf = h
Reads-continue j k c (stuck, d) f h hf = h

pub Reads-bind {ℓ κ} :
    {A : Type ℓ} {B : Type κ} {m : M A} {j : ℕ} (f : A → M B) (k : ℕ)
    → Reads m j
    → ((a : A) → Reads (f a) k)
    → Reads (m >>= f) (j + k)
Reads-bind {m} {j} f k hm hf = record { run = λ c. Reads-continue j k c (m c) f (hm.run c) hf }

pub Reads-if {ℓ} :
    {A : Type ℓ} {m n : M A} {k : ℕ} (b : Bool)
    → Reads m k
    → Reads n k
    → Reads (if b then m else n) k
Reads-if true hm hn = hm
Reads-if false hm hn = hn

ReadsTo-weaken {ℓ} :
    {A : Type ℓ} {j k : ℕ} (c : Connection) (r : Outcome A × Connection)
    → j ≤ k
    → ReadsTo k c r
    → ReadsTo j c r
ReadsTo-weaken c (done a, d) h t = (omega arith, t.1)
ReadsTo-weaken c (closing, d) h t = t
ReadsTo-weaken c (failed, d) h t = t
ReadsTo-weaken c (stuck, d) h t = t

pub Reads-weaken {ℓ} : {A : Type ℓ} {m : M A} {k : ℕ} (j : ℕ) → j ≤ k → Reads m k → Reads m j
Reads-weaken {m} {k} j h t = record {
  run = λ c. ReadsTo-weaken {j = j} {k = k} c (m c) h (t.run c);
}
