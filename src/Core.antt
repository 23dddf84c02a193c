-- ===== src/Core.antt =====
-- libs/Core: exit codes (utilities.h), the results of comparison functions (comparisons.h), the
-- callbacks (callback_types.h), and the runs of C code that the components share.
use cmake_template.Prelude.{
  refl, ◌≡◌, ℕ, Bool, none, some, List, if◌then◌else◌, get_elem?, set, length, ltb, ◌≡◌, ◌<◌, arith,
  ◌≢◌, ◌==◌, false, true,
}

-- The address of an object; `null` is NULL.
abbrev pub Ptr : Type 0
Ptr = ℕ

abbrev pub null : Ptr
null = 0

-- E_SUCCESS, E_FAILURE, E_EOF, E_NULL_POINTER and E_CONNECTION_CLOSED
pub data ExitCode : Type 0 where
  success failure eof null_pointer connection_closed : ExitCode

-- `E_SUCCESS == code`
abbrev pub succeeded : ExitCode → Bool
succeeded success = Bool.true
succeeded _ = Bool.false

-- `comp_rtns_t`
pub data Comparison : Type 0 where
  error equal greater_than less_than not_equal : Comparison

-- `CMP_F`, a comparison function of the caller's.
abbrev pub CmpF : Type 0
CmpF = Ptr → Ptr → Comparison

-- `EQUAL == c`
abbrev pub is_equal : Comparison → Bool
is_equal Comparison.equal = Bool.true
is_equal _ = Bool.false

-- A run of C code ends with a value, or reads, writes or calls through an address that it may not
-- use (`fault`), or has used up the rounds that the model gives its loop (`out_of_fuel`).
pub data Run {ℓ} (A : Type ℓ) : Type ℓ where
  ok : A → Run A
  fault : Run A
  out_of_fuel : Run A

infixl 5 ◌>>=◌ ◌>>◌
abbrev pub ◌>>=◌ {ℓ κ} : {A : Type ℓ} {B : Type κ} → Run A → (A → Run B) → Run B
ok a >>= f = f a
fault >>= f = fault
out_of_fuel >>= f = out_of_fuel

abbrev pub ◌>>◌ {ℓ} : {B : Type ℓ} → Run (Unit {0}) → Run B → Run B
m >> k = m >>= λ _. k

-- `arr[i]` and `arr[i] = v`, a fault out of bounds.
abbrev pub read {ℓ} : {A : Type ℓ} → List A → ℕ → Run A
read arr i = elim (get_elem? arr i) [ none ↦ fault | some v ↦ ok v ]

abbrev pub write {ℓ} : {A : Type ℓ} → List A → ℕ → A → Run (List A)
write arr i v = if ltb i (length arr) then ok (set arr i v) else fault

-- The run ends with a value of which `P` holds.
abbrev pub Returns : {A : Type 0} → (A → Type 0) → Run A → Type 0
Returns P (ok a) = P a
Returns P fault = ⊥
Returns P out_of_fuel = ⊥

pub bind_assoc {ℓ κ μ} :
    {A : Type ℓ} {B : Type κ} {C : Type μ} (r : Run A) (f : A → Run B) (g : B → Run C)
    → ((r >>= f) >>= g) ≡ (r >>= λ a. f a >>= g)
bind_assoc (ok a) f g = refl
bind_assoc fault f g = refl
bind_assoc out_of_fuel f g = refl

pub bind_cong {ℓ κ} :
    {A : Type ℓ} {B : Type κ} (r : Run A) (f g : A → Run B)
    → ((a : A) → f a ≡ g a)
    → (r >>= f) ≡ (r >>= g)
bind_cong (ok a) f g e = e a
bind_cong fault f g e = refl
bind_cong out_of_fuel f g e = refl

module _ {A : Type 0} (P : A → Type 0) where
  pub Returns-bind :
      {B : Type 0} (Q : B → Type 0) (r : Run A) (k : A → Run B)
      → Returns P r
      → ((a : A) → P a → Returns Q (k a))
      → Returns Q (r >>= k)
  Returns-bind Q (ok a) k p next = next a p
  Returns-bind Q fault k p next = elim p [ ]
  Returns-bind Q out_of_fuel k p next = elim p [ ]

  pub Returns-mono :
      (Q : A → Type 0) (r : Run A) → Returns P r → ((a : A) → P a → Q a) → Returns Q r
  Returns-mono Q (ok a) p weaken = weaken a p
  Returns-mono Q fault p weaken = elim p [ ]
  Returns-mono Q out_of_fuel p weaken = elim p [ ]

  -- The value that a run returns.
  pub Returns-ok : (r : Run A) → Returns P r → (a : A) × (r ≡ ok a) × P a
  Returns-ok (ok a) p = (a, refl, p)
  Returns-ok fault p = elim p [ ]
  Returns-ok out_of_fuel p = elim p [ ]

pub write_lem {ℓ} :
    {A : Type ℓ} (arr : List A) (i : ℕ) (v : A) → i < length arr → write arr i v ≡ ok (set arr i v)
write_lem arr i v h = ground arith

pub not_null : (p : Ptr) → p ≢ null → (p == null) ≡ false
not_null p ne = ground arith

pub ptr_self : (p : Ptr) → (p == p) ≡ true
ptr_self p = ground arith

pub ptr-ne : (p q : Ptr) → p ≢ q → (p == q) ≡ false
ptr-ne p q ne = ground arith
