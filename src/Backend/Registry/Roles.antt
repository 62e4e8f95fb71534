-- ===== src/Backend/Registry/Roles.antt =====
-- The roles of backends: the default backend takes persistent objects, the ephemeral backend takes
-- only ephemeral ones, and the cache is in memory.
use objmapper.Base.{
  ℕ, zero, suc, ◌-◌, ◌%◌, ◌^◌, ◌≤◌, ◌<◌, ◌≡◌, ◌≢◌, refl, sym, ap, subst, ◌∙◌, inl, inr, Bool, true,
  false, not, Option, none, some, List, [], ◌∷◌, length, length-set, get_elem?, get_elem?-set_self,
  get_elem?-set_ne, set, ◌==◌, ==_iff, bit_and, bit_or, Bool-cases, arith,
}
use objmapper.Base.Flags.{bit_or_low, bit_and_low, bit_and-1}
use objmapper.Backend.Types.{
  MigrationPolicy, flag_ephemeral_only, flag_enabled, has_flag, BackendInfo, Manager,
}
use objmapper.Backend.Registry.{
  is_memory, replace_backend, update_backend, change_backend, with_enabled, backend_set_enabled,
  backend_set_migration_policy,
}

-- The lowest flag is tested by its bit.
pub has_flag-1 : (flags : ℕ) → has_flag flags 1 ≡ not (flags % 2 == 0)
unfolding has_flag
has_flag-1 flags = ap (λ n. not (n == 0)) (bit_and-1 flags)

same_low : (f g : ℕ) → f % 2 ≡ g % 2 → has_flag f 1 ≡ has_flag g 1
same_low f g h = has_flag-1 f ∙ ap (λ n. not (n == 0)) h ∙ sym (has_flag-1 g)

-- What a role depends on: the identifier, whether it is in memory, and whether it is ephemeral.
abbrev pub kind_of : Option BackendInfo → Option (ℕ × (Bool × Bool))
kind_of none = none
kind_of (some b) = some (b.id, (is_memory b.kind, has_flag b.flags flag_ephemeral_only))

abbrev KeepsKind : (BackendInfo → BackendInfo) → Type 0
KeepsKind change = (b : BackendInfo) → kind_of (some (change b)) ≡ kind_of (some b)

pub record HasRoles (mgr : Manager) : Type 0 where
  pub bounded : length mgr.backends ≤ mgr.max_backends
  pub numbered :
      (i : ℕ) (k : ℕ × (Bool × Bool)) → kind_of (get_elem? mgr.backends i) ≡ some k → k.0 ≡ i
  pub default_persistent :
      (i : ℕ)
      → mgr.default_backend_id ≡ some i
      → (k : ℕ × (Bool × Bool)) × ((kind_of (get_elem? mgr.backends i) ≡ some k) × (k.1.1 ≡ false))
  pub ephemeral_only :
      (i : ℕ)
      → mgr.ephemeral_backend_id ≡ some i
      → (k : ℕ × (Bool × Bool)) × ((kind_of (get_elem? mgr.backends i) ≡ some k) × (k.1.1 ≡ true))
  pub cache_memory :
      (i : ℕ)
      → mgr.cache_backend_id ≡ some i
      → (k : ℕ × (Bool × Bool)) × ((kind_of (get_elem? mgr.backends i) ≡ some k) × (k.1.0 ≡ true))

-- The same backends by kind, and the same roles.
pub record SameRoles (mgr mgr' : Manager) : Type 0 where
  pub kinds : (i : ℕ) → kind_of (get_elem? mgr'.backends i) ≡ kind_of (get_elem? mgr.backends i)
  pub size : length mgr'.backends ≡ length mgr.backends
  pub max : mgr'.max_backends ≡ mgr.max_backends
  pub default_id : mgr'.default_backend_id ≡ mgr.default_backend_id
  pub ephemeral_id : mgr'.ephemeral_backend_id ≡ mgr.ephemeral_backend_id
  pub cache_id : mgr'.cache_backend_id ≡ mgr.cache_backend_id

pub SameRoles-self : (mgr : Manager) → SameRoles mgr mgr
SameRoles-self mgr = record {
  kinds = λ i. refl;
  size = refl;
  max = refl;
  default_id = refl;
  ephemeral_id = refl;
  cache_id = refl;
}

pub SameRoles-trans : {a b c : Manager} → SameRoles a b → SameRoles b c → SameRoles a c
SameRoles-trans r s = record {
  kinds = λ i. s.kinds i ∙ r.kinds i;
  size = s.size ∙ r.size;
  max = s.max ∙ r.max;
  default_id = s.default_id ∙ r.default_id;
  ephemeral_id = s.ephemeral_id ∙ r.ephemeral_id;
  cache_id = s.cache_id ∙ r.cache_id;
}

pub SameRoles-HasRoles : {a b : Manager} → SameRoles a b → HasRoles a → HasRoles b
SameRoles-HasRoles s ok = record {
  bounded =
      (let bound = ok.bounded in
        let size = s.size in let max = s.max in omega (arith, bound, size, max));
  numbered = λ i k e. ok.numbered i k (sym (s.kinds i) ∙ e);
  default_persistent = λ i e.
      let r = ok.default_persistent i (sym s.default_id ∙ e) in (r.0, (s.kinds i ∙ r.1.0, r.1.1));
  ephemeral_only = λ i e.
      let r = ok.ephemeral_only i (sym s.ephemeral_id ∙ e) in (r.0, (s.kinds i ∙ r.1.0, r.1.1));
  cache_memory =
      λ i e. let r = ok.cache_memory i (sym s.cache_id ∙ e) in (r.0, (s.kinds i ∙ r.1.0, r.1.1));
}

pub set_below {ℓ} :
    {A : Type ℓ} (xs : List A) (i : ℕ) (x : A) → get_elem? xs i ≡ some x → i < length xs
set_below [] i x e = cc
set_below (y ∷ ys) zero x e = omega arith
set_below (y ∷ ys) (suc i) x e = let rest = set_below ys i x e in omega arith

set_kinds :
    (bs : List BackendInfo) (i j : ℕ) (b c : BackendInfo)
    → get_elem? bs i ≡ some b
    → kind_of (some c) ≡ kind_of (some b)
    → kind_of (get_elem? (set bs i c) j) ≡ kind_of (get_elem? bs j)
set_kinds bs i j b c there same = elim (Bool-cases (i == j)) [
  | inr other ↦ let ne : i ≢ j = ground arith in ap kind_of (get_elem?-set_ne bs i j c ne)
  | inl self ↦
      subst (λ k. kind_of (get_elem? (set bs i c) k) ≡ kind_of (get_elem? bs k))
        ((==_iff i j).0 self)
        (ap kind_of (get_elem?-set_self bs i c (set_below bs i b there))
          ∙ same
          ∙ sym (ap kind_of there))
]

SameRoles-replace_backend :
    (o : Option BackendInfo) (i : ℕ) (change : BackendInfo → BackendInfo) (mgr : Manager)
    → get_elem? mgr.backends i ≡ o
    → KeepsKind change
    → SameRoles mgr (replace_backend o i change mgr)
SameRoles-replace_backend none i change mgr e keeps = SameRoles-self mgr
SameRoles-replace_backend (some b) i change mgr e keeps = record {
  kinds = λ j. set_kinds mgr.backends i j b (change b) e (keeps b);
  size = length-set mgr.backends i (change b);
  max = refl;
  default_id = refl;
  ephemeral_id = refl;
  cache_id = refl;
}

pub SameRoles-update_backend :
    (i : ℕ) (change : BackendInfo → BackendInfo) (mgr : Manager)
    → KeepsKind change
    → SameRoles mgr (update_backend i change mgr)
unfolding update_backend
SameRoles-update_backend i change mgr keeps =
    SameRoles-replace_backend (get_elem? mgr.backends i) i change mgr refl keeps

SameRoles-change_backend :
    (id : Option ℕ) (change : BackendInfo → BackendInfo) (mgr : Manager)
    → KeepsKind change
    → SameRoles mgr (change_backend id change mgr).1
unfolding change_backend
SameRoles-change_backend none change mgr keeps = SameRoles-self mgr
SameRoles-change_backend (some i) change mgr keeps = SameRoles-update_backend i change mgr keeps

with_enabled-KeepsKind : (enabled : Bool) → KeepsKind (with_enabled enabled)
with_enabled-KeepsKind true b =
    ap (λ t. some (b.id, (is_memory b.kind, t)))
      (same_low (bit_or b.flags flag_enabled) b.flags
        (let low = bit_or_low b.flags flag_enabled in omega (arith, low)))
with_enabled-KeepsKind false b =
    ap (λ t. some (b.id, (is_memory b.kind, t)))
      (same_low (bit_and b.flags (2 ^ 32 - 1 - flag_enabled)) b.flags
        (bit_and_low b.flags (2 ^ 32 - 1 - flag_enabled) refl))

pub backend_set_enabled-HasRoles :
    (id : Option ℕ) (enabled : Bool) (mgr : Manager)
    → HasRoles mgr
    → HasRoles (backend_set_enabled id enabled mgr).1
unfolding backend_set_enabled
backend_set_enabled-HasRoles id enabled mgr ok =
    SameRoles-HasRoles
      (SameRoles-change_backend id (with_enabled enabled) mgr (with_enabled-KeepsKind enabled)) ok

pub backend_set_migration_policy-HasRoles :
    (id : Option ℕ) (policy : MigrationPolicy) (mgr : Manager)
    → HasRoles mgr
    → HasRoles (backend_set_migration_policy id policy mgr).1
unfolding backend_set_migration_policy
backend_set_migration_policy-HasRoles id policy mgr ok =
    SameRoles-HasRoles (SameRoles-change_backend id _ mgr (λ b. refl)) ok
