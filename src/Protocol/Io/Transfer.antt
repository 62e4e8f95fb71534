-- ===== src/Protocol/Io/Transfer.antt =====
-- What the actions of `Io` put on the socket and take from it, and how that composes.
use objmapper.Base.{
  ℕ, ◌+◌, ◌-◌, ◌≤◌, ◌≡◌, refl, List, [], ◌∷◌, ◌++◌, map, length, arith, take-append, drop-append,
  length-append, ◌∙◌, le→leb, ap, append_assoc, append-nil,
}
use objmapper.Protocol.Types.{Connection, Cell, byte, rights, done, ErrorText}
use objmapper.Protocol.Io.{
  M, pure, or_error, or_error_on, value, ◌>>=◌, ◌>>◌, send_cells, send_all, send_fd, recv_all,
  recv_fd, peek_byte,
}

map-value-byte : (bs : List ℕ) → map value (map byte bs) ≡ bs
map-value-byte [] = refl
map-value-byte (b ∷ bs) = rw (map-value-byte bs)

pub length-map_byte : (bs : List ℕ) → length (map byte bs) ≡ length bs
length-map_byte [] = refl
length-map_byte (b ∷ bs) = omega (arith, length-map_byte bs)

-- `m` sends exactly `cells` where the socket takes them, and changes nothing else.
pub record Sends (m : M (Unit {0})) (cells : List Cell) : Type 0 where
  pub run :
      (c : Connection)
      → length cells ≤ c.room
      → m c ≡ (done tt, record c { output = c.output ++ cells; room = c.room - length cells })

-- `m` returns `a` where the input begins with `cells`, which it takes, and changes nothing else.
pub record Takes {ℓ} {A : Type ℓ} (m : M A) (cells : List Cell) (a : A) : Type ℓ where
  pub run :
      (c : Connection) (rest : List Cell)
      → c.input ≡ cells ++ rest
      → m c ≡ (done a, record c { input = rest })

Sends-send_cells : (cells : List Cell) → Sends (send_cells cells) cells
unfolding send_cells
Sends-send_cells cells = record { run = λ c h. rw (le→leb _ _ h) }

pub Sends-send_all : (bs : List ℕ) → Sends (send_all bs) (map byte bs)
unfolding send_all
Sends-send_all bs = Sends-send_cells (map byte bs)

pub Sends-send_fd : (fd : ℕ) → Sends (send_fd fd) (rights fd ∷ [])
unfolding send_fd
Sends-send_fd fd = Sends-send_cells (rights fd ∷ [])

pub Sends-pure : Sends (pure tt) []
Sends-pure = record {
  run = λ c h. simp append-nil (ap (λ (k : ℕ). (done tt, record c { room = k })) (omega arith));
}

pub Sends-bind :
    {m n : M (Unit {0})} {xs ys : List Cell} → Sends m xs → Sends n ys → Sends (m >> n) (xs ++ ys)
Sends-bind {xs} {ys} hm hn = record {
  run = λ c h.
      let fits : length xs + length ys ≤ c.room = omega (arith, length-append xs ys) in
      rw
        (
          hm.run c (omega arith),
          hn.run (record c { output = c.output ++ xs; room = c.room - length xs }) (omega arith),
          append_assoc,
        )
        (ap (λ (k : ℕ). (done tt, record c { output = c.output ++ (xs ++ ys); room = k }))
          (omega (arith, length-append xs ys)));
}

pub Sends-or_error :
    {m : M (Unit {0})} {xs : List Cell} (e : ErrorText) → Sends m xs → Sends (or_error m e) xs
Sends-or_error e h = record { run = λ c room. ap (or_error_on e) (h.run c room) }

pub Takes-recv_all : (n : ℕ) (bs : List ℕ) → length bs ≡ n → Takes (recv_all n) (map byte bs) bs
unfolding recv_all
Takes-recv_all n bs h = record {
  run = λ c rest e. simp (
    e,
    le→leb n (length (map byte bs ++ rest)) (omega (arith, length-append (map byte bs) rest, len)),
    take-append n (map byte bs) rest len,
    drop-append n (map byte bs) rest len,
    map-value-byte,
  );
}
  where
    len : length (map byte bs) ≡ n
    len = length-map_byte bs ∙ h

pub Takes-recv_fd : (fd : ℕ) → Takes recv_fd (rights fd ∷ []) fd
unfolding recv_fd
Takes-recv_fd fd = record { run = λ c rest e. simp e }

pub Takes-pure {ℓ} : {A : Type ℓ} (a : A) → Takes (pure a) [] a
Takes-pure a = record {
  run = λ c rest e. ap (λ (x : List Cell). (done a, record c { input = x })) e;
}

pub Takes-bind {ℓ κ} :
    {A : Type ℓ} {B : Type κ} {m : M A} {xs ys : List Cell} {a : A} {b : B} (f : A → M B)
    → Takes m xs a
    → Takes (f a) ys b
    → Takes (m >>= f) (xs ++ ys) b
Takes-bind {xs} {ys} f hm hf = record {
  run = λ c rest e.
      rw (hm.run c (ys ++ rest) (e ∙ append_assoc xs ys rest))
        (hf.run (record c { input = ys ++ rest }) rest refl);
}

pub Takes-or_error {ℓ} :
    {A : Type ℓ} {m : M A} {xs : List Cell} {a : A} (e : ErrorText)
    → Takes m xs a
    → Takes (or_error m e) xs a
Takes-or_error e h = record { run = λ c rest i. ap (or_error_on e) (h.run c rest i) }

-- A computed value after a read.
pub Takes-then {ℓ κ} :
    {A : Type ℓ} {B : Type κ} {m : M A} {xs : List Cell} {a : A} (g : A → B)
    → Takes m xs a
    → Takes (m >>= λ x. pure (g x)) xs (g a)
Takes-then g h = record { run = λ c rest e. rw (h.run c rest e) }

-- A look at the first byte takes nothing.
pub peek_byte_lem :
    (x : Cell) (rest : List Cell) (c : Connection)
    → c.input ≡ x ∷ rest
    → peek_byte c ≡ (done (value x), c)
unfolding peek_byte
peek_byte_lem x rest c e = simp e
