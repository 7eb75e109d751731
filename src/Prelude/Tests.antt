-- ===== src/Prelude/Tests.antt =====
-- Boolean tests on numbers and pairs, the conditional, and the keys of ordered containers.
use Prim.Native.Nat.{ℕ, ◌≤◌, ◌<◌, compare, Ordering}
use Prim.Native.String.{String}
use Prim.Native.String
use mathlib.Core.Path.{◌≡◌, refl}
use mathlib.Core.Logic.{◌↔◌, ◌⊎◌, inl, inr}
use mathlib.Core.Bool.{Bool, true, false, ◌&&◌, ◌||◌}
use mathlib.Core.Option.{Option, none, some}
use native.Mathlib.Omega.{arith}
use text.Mathlib.Text.{◌==◌ as str_eq, is_lt}
use text.Mathlib.TextEquality.{eq_iff}

abbrev pub ltb : ℕ → ℕ → Bool
ltb a b = elim (compare a b) [ Ordering.lt ↦ true | _ ↦ false ]

abbrev pub leb : ℕ → ℕ → Bool
leb a b = elim (compare a b) [ Ordering.gt ↦ false | _ ↦ true ]

infix 50 ◌==◌
abbrev pub ◌==◌ : ℕ → ℕ → Bool
a == b = elim (compare a b) [ Ordering.eq ↦ true | _ ↦ false ]

infix 1 if◌then◌else◌
abbrev pub if◌then◌else◌ {ℓ} : {A : Type ℓ} → Bool → A → A → A
if true then x else y = x
if false then x else y = y

pub ltb→lt : (a b : ℕ) → ltb a b ≡ true → a < b
ltb→lt a b h = ground arith

pub lt→ltb : (a b : ℕ) → a < b → ltb a b ≡ true
lt→ltb a b h = ground arith

pub leb→le : (a b : ℕ) → leb a b ≡ true → a ≤ b
leb→le a b h = ground arith

pub ==_iff : (a b : ℕ) → ((a == b) ≡ true) ↔ (a ≡ b)
==_iff a b = ground arith

pub Bool-cases : (b : Bool) → (b ≡ true) ⊎ (b ≡ false)
Bool-cases true = inl refl
Bool-cases false = inr refl

pub Option-cases {ℓ} : {A : Type ℓ} (o : Option A) → (o ≡ none) ⊎ ((a : A) × (o ≡ some a))
Option-cases none = inl refl
Option-cases (some a) = inr (a, refl)

abbrev pub is_some {ℓ} : {A : Type ℓ} → Option A → Bool
is_some none = false
is_some (some a) = true

abbrev pub or_else {ℓ} : {A : Type ℓ} → A → Option A → A
or_else d none = d
or_else d (some a) = a

-- A key type of `std::map` and `std::set`: its equality and its strict order.
pub record Key (K : Type 0) : Type 0 where
  pub beq : K → K → Bool
  pub blt : K → K → Bool
  pub beq_iff : (a b : K) → (beq a b ≡ true) ↔ (a ≡ b)

instance abbrev pub nat_key : Key ℕ
nat_key = record { beq = ◌==◌; blt = ltb; beq_iff = ==_iff }

abbrev pub pair_eq : ℕ × ℕ → ℕ × ℕ → Bool
pair_eq (a, b) (c, d) = a == c && b == d

abbrev pub pair_lt : ℕ × ℕ → ℕ × ℕ → Bool
pair_lt (a, b) (c, d) = ltb a c || a == c && ltb b d

pub pair_eq_iff : (p q : ℕ × ℕ) → (pair_eq p q ≡ true) ↔ (p ≡ q)
pair_eq_iff (a, b) (c, d) = ground arith

instance abbrev pub pair_key : Key (ℕ × ℕ)
pair_key = record { beq = pair_eq; blt = pair_lt; beq_iff = pair_eq_iff }

instance abbrev pub string_key : Key String
string_key = record { beq = str_eq; blt = λ s t. is_lt (String.compare s t); beq_iff = eq_iff }

pub is_some_value {ℓ} : {A : Type ℓ} (o : Option A) → is_some o ≡ true → (a : A) × (o ≡ some a)
is_some_value none h = cc
is_some_value (some a) h = (a, refl)
