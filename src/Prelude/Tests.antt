-- ===== src/Prelude/Tests.antt =====
-- Boolean tests on the native numbers, the conditional, and equality as an interface.
use Prim.Native.Nat.{ℕ, ◌≤◌, ◌<◌, compare, Ordering}
use Prim.Native.String.{String}
use mathlib.Core.Path.{◌≡◌, refl}
use mathlib.Core.Logic.{◌↔◌, ◌⊎◌, inl, inr}
use mathlib.Core.Bool.{Bool, true, false, ◌&&◌}
use mathlib.Core.Option.{Option, none, some}
use native.Mathlib.Omega.{arith}
use text.Mathlib.Text.{◌==◌ as str_eq}
use text.Mathlib.TextEquality.{eq_iff}

abbrev pub ltb : ℕ → ℕ → Bool
ltb a b = elim (compare a b) [ Ordering.lt ↦ true | _ ↦ false ]

abbrev pub leb : ℕ → ℕ → Bool
leb a b = elim (compare a b) [ Ordering.gt ↦ false | _ ↦ true ]

abbrev pub nat_eq : ℕ → ℕ → Bool
nat_eq a b = elim (compare a b) [ Ordering.eq ↦ true | _ ↦ false ]

infix 1 if◌then◌else◌
abbrev pub if◌then◌else◌ {ℓ} : {A : Type ℓ} → Bool → A → A → A
if true then x else y = x
if false then x else y = y

pub nat_eq_iff : (a b : ℕ) → (nat_eq a b ≡ true) ↔ (a ≡ b)
nat_eq_iff a b = ground arith

pub ltb→lt : (a b : ℕ) → ltb a b ≡ true → a < b
ltb→lt a b h = ground arith

pub lt→ltb : (a b : ℕ) → a < b → ltb a b ≡ true
lt→ltb a b h = ground arith

pub leb→le : (a b : ℕ) → leb a b ≡ true → a ≤ b
leb→le a b h = ground arith

pub le→leb : (a b : ℕ) → a ≤ b → leb a b ≡ true
le→leb a b h = ground arith

-- A split on a computed value that keeps the equation.
pub Bool-cases : (b : Bool) → (b ≡ true) ⊎ (b ≡ false)
Bool-cases true = inl refl
Bool-cases false = inr refl

pub Option-cases {ℓ} : {A : Type ℓ} (o : Option A) → (o ≡ none) ⊎ ((a : A) × (o ≡ some a))
Option-cases none = inl refl
Option-cases (some a) = inr (a, refl)

-- What a dict asks of the type of its keys: Python's `==`.
pub record Key {ℓ} (K : Type ℓ) : Type ℓ where
  pub agrees : K → K → Bool
  pub agrees_iff : (j k : K) → (agrees j k ≡ true) ↔ (j ≡ k)

infix 50 ◌==◌
abbrev pub ◌==◌ {ℓ} : {K : Type ℓ} ⦃keys : Key K⦄ (j k : K) → Bool
◌==◌ ⦃keys⦄ j k = keys.agrees j k

pub ==_refl {ℓ} : {K : Type ℓ} ⦃keys : Key K⦄ (k : K) → (k == k) ≡ true
==_refl ⦃keys⦄ k = (keys.agrees_iff k k).1 refl

instance abbrev pub number_eq : Key ℕ
number_eq = record { agrees = nat_eq; agrees_iff = nat_eq_iff }

instance abbrev pub string_eq : Key String
string_eq = record { agrees = str_eq; agrees_iff = eq_iff }

abbrev pair_beq {ℓ κ} : {A : Type ℓ} {B : Type κ} ⦃e : Key A⦄ ⦃f : Key B⦄ → A × B → A × B → Bool
pair_beq ⦃e⦄ ⦃f⦄ (a, b) (c, d) = e.agrees a c && f.agrees b d

pub pair_beq_iff {ℓ κ} :
    {A : Type ℓ} {B : Type κ} ⦃e : Key A⦄ ⦃f : Key B⦄ (p q : A × B)
    → (pair_beq p q ≡ true) ↔ (p ≡ q)
pair_beq_iff ⦃e⦄ ⦃f⦄ (a, b) (c, d) = ground (arith, e.agrees_iff a c, f.agrees_iff b d)

instance abbrev pub pair_eq {ℓ κ} : {A : Type ℓ} {B : Type κ} ⦃e : Key A⦄ ⦃f : Key B⦄ → Key (A × B)
pair_eq = record { agrees = pair_beq; agrees_iff = pair_beq_iff }

-- A value that a test let pass.
pub kept-some {ℓ} :
    {A : Type ℓ} (p : A → Bool) (a b : A)
    → (if p a then some a else none) ≡ some b
    → (some a ≡ some b) × (p b ≡ true)
kept-some p a b h = ground arith
