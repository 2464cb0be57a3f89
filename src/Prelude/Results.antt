-- ===== src/Prelude/Results.antt =====
-- Python code that may raise: a pure function returns a `Result`, a method that also changes an
-- object is an `Exec`, which gives the state back beside the error too.
use mathlib.Core.Logic.{◌⊎◌, inl, inr}
use mathlib.Core.Path.{◌≡◌, refl}
use mathlib.Core.Bool.{Bool, true, false}

pub data Result {ℓ κ} (E : Type κ) (A : Type ℓ) : Type (ℓ ⊔ κ) where
  ok : A → Result E A
  raise : E → Result E A

infixl 5 ◌>>=◌ ◌>>◌
abbrev pub ◌>>=◌ {ℓ κ μ} :
    {E : Type μ} {A : Type ℓ} {B : Type κ} → Result E A → (A → Result E B) → Result E B
ok a >>= f = f a
raise e >>= f = raise e

abbrev pub ◌>>◌ {κ μ} : {E : Type μ} {B : Type κ} → Result E (Unit {0}) → Result E B → Result E B
m >> k = m >>= λ _. k

-- `if not test: raise e`
abbrev pub require {μ} : {E : Type μ} → Bool → E → Result E (Unit {0})
require true e = ok tt
require false e = raise e

-- A chain that returns: its first step returned, and so did the rest.
pub >>=-eq-ok {ℓ κ μ} :
    {E : Type μ} {A : Type ℓ} {B : Type κ} (step : Result E A) (next : A → Result E B) {out : B}
    → (step >>= next) ≡ ok out
    → (given : A) × (step ≡ ok given) × (next given ≡ ok out)
>>=-eq-ok (ok given) next done = (given, refl, done)
>>=-eq-ok (raise e) next done = cc

pub require-eq-ok {κ μ} :
    {E : Type μ} {B : Type κ} (t : Bool) (e : E) (k : Result E B) {b : B}
    → (require t e >> k) ≡ ok b
    → (t ≡ true) × (k ≡ ok b)
require-eq-ok true e k h = (refl, h)
require-eq-ok false e k h = cc

pub require-eq-tt {μ} :
    {E : Type μ} (t : Bool) (e : E) {u : Unit {0}} → require t e ≡ ok u → t ≡ true
require-eq-tt true e h = refl
require-eq-tt false e h = cc

pub ok-injective {ℓ μ} :
    {E : Type μ} {A : Type ℓ} {a b : A} → Path (Result E A) (ok a) (ok b) → a ≡ b
ok-injective h = cc

-- What holds of the value, if the code returns.
abbrev pub Returns {ℓ κ μ} : {E : Type μ} {A : Type ℓ} → (A → Type κ) → Result E A → Type κ
Returns P (ok a) = P a
Returns P (raise e) = Unit

pub Returns-guard {ℓ κ μ} :
    {E : Type μ} {A : Type ℓ} (P : A → Type κ) (m : Result E (Unit {0})) (k : Result E A)
    → Returns P k
    → Returns P (m >> k)
Returns-guard P (ok u) k h = h
Returns-guard P (raise e) k h = tt

pub Returns-bind {ℓ κ μ ν} :
    {E : Type μ} {A : Type ℓ} {B : Type ν} (Q : A → Type κ) (P : B → Type κ) (m : Result E A)
    (f : A → Result E B)
    → Returns Q m
    → ((a : A) → Q a → Returns P (f a))
    → Returns P (m >>= f)
Returns-bind Q P (ok a) f h k = k a h
Returns-bind Q P (raise e) f h k = tt

pub guard_cases {μ} :
    {E : Type μ} (m : Result E (Unit {0})) → (m ≡ ok tt) ⊎ ((e : E) × (m ≡ raise e))
guard_cases (ok tt) = inl refl
guard_cases (raise e) = inr (e, refl)
