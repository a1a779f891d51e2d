-- ===== src/Prelude/Results.antt =====
-- Results of code that may raise. A method that changes an object returns the object beside the
-- result, since what was written before a raise stays written.
use Prim.Native.Nat.{ℕ}
use mathlib.Core.Path.{◌≡◌, refl}
use mathlib.Core.Logic.{◌⊎◌, inl, inr}
use mathlib.Core.Bool.{Bool, true, false}
use mathlib.Core.Option.{Option, none, some}

pub data Result {ℓ κ} (E : Type κ) (A : Type ℓ) : Type (ℓ ⊔ κ) where
  ok : A → Result E A
  err : E → Result E A

infixl 5 ◌>>=◌ ◌>>◌
abbrev pub ◌>>=◌ {ℓ κ μ} :
    {E : Type μ} {A : Type ℓ} {B : Type κ} → Result E A → (A → Result E B) → Result E B
ok a >>= f = f a
err e >>= f = err e

abbrev pub ◌>>◌ {ℓ μ} : {E : Type μ} {B : Type ℓ} → Result E (Unit {0}) → Result E B → Result E B
m >> k = m >>= λ _. k

-- `if not b: raise e`
abbrev pub require {μ} : {E : Type μ} → Bool → E → Result E (Unit {0})
require true e = ok tt
require false e = err e

abbrev pub or_raise {ℓ μ} : {E : Type μ} {A : Type ℓ} → Option A → E → Result E A
or_raise none e = err e
or_raise (some a) e = ok a

-- A method's pure step: on an error the object is left as it is.
abbrev pub attempt {ℓ κ μ ν} :
    {E : Type μ} {A : Type ℓ} {B : Type κ} {S : Type ν}
    → Result E A
    → S
    → (A → Result E B × S)
    → Result E B × S
attempt (ok a) s k = k a
attempt (err e) s k = (err e, s)

-- What holds of the object before a step and after its continuation holds after the step.
pub attempt-keeps {ℓ κ μ ν ξ} :
    {E : Type μ} {A : Type ℓ} {B : Type κ} {S : Type ν} (P : S → Type ξ) (m : Result E A) (s : S)
    (k : A → Result E B × S)
    → P s
    → ((a : A) → P (k a).1)
    → P (attempt m s k).1
attempt-keeps P (ok a) s k here there = there a
attempt-keeps P (err e) s k here there = here

-- A step that succeeds had a successful first half.
pub attempt-ok {ℓ κ μ ν} :
    {E : Type μ} {A : Type ℓ} {B : Type κ} {S : Type ν} (m : Result E A) (s s' : S)
    (k : A → Result E B × S) (b : B)
    → attempt m s k ≡ (ok b, s')
    → (a : A) × (m ≡ ok a) × (k a ≡ (ok b, s'))
attempt-ok (ok a) s s' k b h = (a, refl, h)
attempt-ok (err e) s s' k b h = absurd cc

pub data DateTime : Type 0 where
  -- An instant with a time zone, in microseconds since the epoch.
  aware : ℕ → DateTime
  -- A wall clock reading without one.
  naive : ℕ → DateTime

-- `_utc`, in each of the modules that declare it: a naive time is refused.
abbrev pub utc {μ} : {E : Type μ} → E → DateTime → Result E ℕ
utc e (aware t) = ok t
utc e (naive t) = err e

pub Result-cases {ℓ κ} :
    {E : Type κ} {A : Type ℓ} (r : Result E A) → ((a : A) × (r ≡ ok a)) ⊎ ((e : E) × (r ≡ err e))
Result-cases (ok a) = inl (a, refl)
Result-cases (err e) = inr (e, refl)

-- A test that did not raise.
pub require-ok {μ} : {E : Type μ} (b : Bool) (e : E) (u : Unit {0}) → require b e ≡ ok u → b ≡ true
require-ok true e u h = refl
require-ok false e u h = absurd cc
