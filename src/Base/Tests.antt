-- ===== src/Base/Tests.antt =====
-- Boolean tests on the native numbers, and the conditional.
use Prim.Native.Nat.{ℕ, ◌≤◌, ◌<◌, compare, Ordering}
use mathlib.Core.Path.{◌≡◌, refl}
use mathlib.Core.Logic.{◌⊎◌, ◌↔◌, inl, inr}
use mathlib.Core.Bool.{Bool, true, false, ◌&&◌}
use mathlib.Core.Option.{Option, none, some}
use Prim.Native.String.{String}
use native.Mathlib.Omega.{arith}
use text.Mathlib.Text.{◌==◌ as str_eq}
use text.Mathlib.TextEquality.{eq_iff}

abbrev pub ltb : ℕ → ℕ → Bool
ltb a b = elim (compare a b) [ Ordering.lt ↦ true | _ ↦ false ]

abbrev pub leb : ℕ → ℕ → Bool
leb a b = elim (compare a b) [ Ordering.gt ↦ false | _ ↦ true ]

infix 50 ◌==◌
abbrev pub ◌==◌ : ℕ → ℕ → Bool
a == b = elim (compare a b) [ Ordering.eq ↦ true | _ ↦ false ]

infix 1 if◌then◌else◌
abbrev pub if◌then◌else◌ {ℓ} : {A : Type ℓ} → Bool → A → A → A
if true then x else y = x
if false then x else y = y

pub ltb→lt : (a b : ℕ) → ltb a b ≡ true → a < b
ltb→lt a b h = ground arith

pub leb→le : (a b : ℕ) → leb a b ≡ true → a ≤ b
leb→le a b h = ground arith

pub ==_iff : (a b : ℕ) → ((a == b) ≡ true) ↔ (a ≡ b)
==_iff a b = ground arith

pub &&-true : (a b : Bool) → (a && b) ≡ true → (a ≡ true) × (b ≡ true)
&&-true true true h = (refl, refl)
&&-true true false h = cc
&&-true false b h = cc

-- To split on a computed value and keep the equation.
pub Bool-cases : (b : Bool) → (b ≡ true) ⊎ (b ≡ false)
Bool-cases true = inl refl
Bool-cases false = inr refl

pub Option-cases {ℓ} : {A : Type ℓ} (o : Option A) → (o ≡ none) ⊎ ((a : A) × (o ≡ some a))
Option-cases none = inl refl
Option-cases (some a) = inr (a, refl)

pub apart_of_test : (s t : String) → str_eq s t ≡ false → ¬ (s ≡ t)
apart_of_test s t e p = cc ((eq_iff s t).1 p)

abbrev discrete_by : (s t : String) (b : Bool) → str_eq s t ≡ b → Dec (s ≡ t)
discrete_by s t true e = yes ((eq_iff s t).0 e)
discrete_by s t false e = no (apart_of_test s t e)

abbrev pub is_some {ℓ} : {A : Type ℓ} → Option A → Bool
is_some none = false
is_some (some a) = true

abbrev pub decided {ℓ} : {P : Type ℓ} → Dec P → Bool
decided (yes p) = true
decided (no p) = false

pub decided_sound {ℓ} : {P : Type ℓ} (d : Dec P) → decided d ≡ true → P
decided_sound (yes p) h = p
decided_sound (no n) h = cc

pub decided_complete {ℓ} : {P : Type ℓ} (d : Dec P) → P → decided d ≡ true
decided_complete (yes p) h = refl
decided_complete (no n) h = absurd (n h)

-- By its own clauses, so that it computes.
unfoldable pub String-discrete : Discrete String
String-discrete s t = discrete_by s t (str_eq s t) refl

str_eq_apart : (s t : String) → ¬ (s ≡ t) → str_eq s t ≡ false
str_eq_apart s t apart = elim (Bool-cases (str_eq s t)) [
  | inl same ↦ absurd (apart ((eq_iff s t).0 same))
  | inr different ↦ different
]

pub str_eq_sym : (s t : String) → str_eq s t ≡ str_eq t s
str_eq_sym s t = elim (String-discrete s t) [
  | yes p ↦ rw p refl
  | no n ↦ rw (str_eq_apart s t n, str_eq_apart t s (λ p. n (cc p))) refl
]
