-- ===== src/Base/Result.antt =====
-- What a call in the program comes to: a value, an error handed to the caller, or a panic
-- (an `unwrap`, `expect`, `assert!`, index or checked arithmetic operation that fails).
use mathlib.Core.Path.{subst}
use lakesis.Base.{◌⊎◌, inl, inr, if◌then◌else◌, ◌≡◌, refl, Bool, true, false, Option, none, some}

pub data Result {ℓ κ} (E : Type κ) (A : Type ℓ) : Type (ℓ ⊔ κ) where
  ok : A → Result E A
  err : E → Result E A
  panic : Result E A

-- The `?` operator.
infixl 5 ◌>>=◌ ◌>>◌
abbrev pub ◌>>=◌ {ℓ κ μ} :
    {E : Type κ} {A : Type ℓ} {B : Type μ} → Result E A → (A → Result E B) → Result E B
ok a >>= f = f a
err e >>= f = err e
panic >>= f = panic

abbrev pub ◌>>◌ {ℓ κ} : {E : Type κ} {B : Type ℓ} → Result E (Unit {0}) → Result E B → Result E B
first >> next = first >>= λ _. next

-- `assert!(condition)`
abbrev pub assert {κ} : {E : Type κ} → Bool → Result E (Unit {0})
assert true = ok tt
assert false = panic

-- `if !condition { return Err(e) }`
abbrev pub guard {κ} : {E : Type κ} → Bool → E → Result E (Unit {0})
guard false failure = err failure
guard true failure = ok tt

-- `.ok_or(e)?`
abbrev pub ok_or {ℓ κ} : {E : Type κ} {A : Type ℓ} → Option A → E → Result E A
ok_or none e = err e
ok_or (some a) e = ok a

-- `.unwrap()` and `.expect(…)`
abbrev pub unwrap {ℓ κ} : {E : Type κ} {A : Type ℓ} → Option A → Result E A
unwrap none = panic
unwrap (some a) = ok a

-- A call that comes back, with an error or with a value that has a property: it does not panic.
pub data Returns {ℓ κ μ} {E : Type κ} {A : Type ℓ} (P : A → Type μ)
    : Result E A → Type (ℓ ⊔ κ ⊔ μ) where
  error : {e : E} → Returns P (err e)
  value : {a : A} → P a → Returns P (ok a)

module _ {ℓ κ μ} {E : Type κ} {A : Type ℓ} {P : A → Type μ} where
  -- The steps of a chain come back one after the other.
  pub Returns-bind {ℓ' μ'} :
      {B : Type ℓ'} {Q : B → Type μ'} {m : Result E A} {next : A → Result E B}
      → Returns P m
      → ((a : A) → P a → Returns Q (next a))
      → Returns Q (m >>= next)
  Returns-bind error k = error
  Returns-bind (value {a} p) k = k a p

  pub Returns-weaken {μ'} :
      {Q : A → Type μ'} {m : Result E A} → Returns P m → ((a : A) → P a → Q a) → Returns Q m
  Returns-weaken error k = error
  Returns-weaken (value {a} p) k = value (k a p)

  -- What is known of an answer.
  pub Returns-ok : {m : Result E A} {a : A} → Returns P m → m ≡ ok a → P a
  Returns-ok error h = cc
  Returns-ok (value p) h = subst P (cc) p

  -- Either branch of a test comes back.
  pub Returns-if :
      (test : Bool) {x y : Result E A}
      → (test ≡ true → Returns P x)
      → (test ≡ false → Returns P y)
      → Returns P (if test then x else y)
  Returns-if false hx hy = hy refl
  Returns-if true hx hy = hx refl

-- A chain that succeeds has a first step that does.
pub >>=-eq-ok {ℓ κ μ} :
    {E : Type κ} {A : Type ℓ} {B : Type μ} (first : Result E A) (next : A → Result E B) {answer : B}
    → (first >>= next) ≡ ok answer
    → (between : A) × (first ≡ ok between) × (next between ≡ ok answer)
>>=-eq-ok panic next done = cc
>>=-eq-ok (err failure) next done = cc
>>=-eq-ok (ok between) next done = (between, refl, done)

pub bind_assoc {ℓ κ μ ν} :
    {E : Type κ} {A : Type ℓ} {B : Type μ} {C : Type ν} (m : Result E A) (f : A → Result E B)
    (g : B → Result E C)
    → (m >>= f >>= g) ≡ (m >>= λ a. f a >>= g)
bind_assoc (ok a) f g = refl
bind_assoc (err e) f g = refl
bind_assoc panic f g = refl

pub Result-cases {ℓ κ} :
    {E : Type κ} {A : Type ℓ} (r : Result E A)
    → ((a : A) × (r ≡ ok a)) ⊎ (((e : E) × (r ≡ err e)) ⊎ (r ≡ panic))
Result-cases (ok a) = inl (a, refl)
Result-cases (err e) = inr (inl (e, refl))
Result-cases panic = inr (inr refl)
