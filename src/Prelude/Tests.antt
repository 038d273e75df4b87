-- ===== src/Prelude/Tests.antt =====
-- Boolean tests, the conditional, and the equality and order of map keys.
use Prim.Native.Nat.{ℕ, compare, Ordering}
use Prim.Native.String.{String, compare as compare_text}
use mathlib.Core.Path.{◌≡◌, refl}
use mathlib.Core.Logic.{◌↔◌, ◌⊎◌, inl, inr, ◌≢◌}
use mathlib.Core.Bool.{Bool, true, false}
use mathlib.Core.Option.{Option, none, some}
use native.Mathlib.Omega.{arith}
use text.Mathlib.Text.{◌==◌ as text_eq}
use text.Mathlib.TextEquality.{eq_iff}

abbrev pub ltb : ℕ → ℕ → Bool
ltb a b = elim (compare a b) [ Ordering.lt ↦ true | _ ↦ false ]

abbrev pub leb : ℕ → ℕ → Bool
leb a b = elim (compare a b) [ Ordering.gt ↦ false | _ ↦ true ]

abbrev pub nat_eq : ℕ → ℕ → Bool
nat_eq a b = elim (compare a b) [ Ordering.eq ↦ true | _ ↦ false ]

pub nat_eq_iff : (a b : ℕ) → (nat_eq a b ≡ true) ↔ (a ≡ b)
nat_eq_iff a b = ground arith

infix 1 if◌then◌else◌
abbrev pub if◌then◌else◌ {ℓ} : {A : Type ℓ} → Bool → A → A → A
if true then x else y = x
if false then x else y = y

pub Bool-cases : (b : Bool) → (b ≡ true) ⊎ (b ≡ false)
Bool-cases true = inl refl
Bool-cases false = inr refl

pub Option-cases {ℓ} : {A : Type ℓ} (o : Option A) → (o ≡ none) ⊎ ((a : A) × (o ≡ some a))
Option-cases none = inl refl
Option-cases (some a) = inr (a, refl)

-- The first value, if there is one, and else the second.
abbrev pub orelse {ℓ} : {A : Type ℓ} → Option A → Option A → Option A
orelse (some a) o = some a
orelse none o = o

-- What `std::map` asks of its keys: equality, and an order for the iteration.
pub record Key {ℓ} (K : Type ℓ) : Type ℓ where
  pub eq : K → K → Bool
  pub eq_iff : (a b : K) → (eq a b ≡ true) ↔ (a ≡ b)
  pub less : K → K → Bool

infix 50 ◌==◌
abbrev pub ◌==◌ {ℓ} : {K : Type ℓ} ⦃k : Key K⦄ → K → K → Bool
◌==◌ ⦃k⦄ = k.eq

abbrev pub text_less : String → String → Bool
text_less a b = elim (compare_text a b) [ Ordering.lt ↦ true | _ ↦ false ]

instance abbrev pub String_key : Key String
String_key = record { eq = text_eq; eq_iff = eq_iff; less = text_less }

instance abbrev pub ℕ_key : Key ℕ
ℕ_key = record { eq = nat_eq; eq_iff = nat_eq_iff; less = ltb }

module _ {ℓ} {K : Type ℓ} ⦃k : Key K⦄ where
  pub ==_refl : (a : K) → (a == a) ≡ true
  ==_refl a = (k.eq_iff a a).1 refl

  pub ==_cases : (a b : K) → (((a == b) ≡ true) × (a ≡ b)) ⊎ (((a == b) ≡ false) × (a ≢ b))
  ==_cases a b = elim (Bool-cases (a == b)) [
    | inl e ↦ inl (e, (k.eq_iff a b).0 e)
    | inr e ↦ inr (e, λ p. ground (arith, (k.eq_iff a b).1 p))
  ]

  pub ==_of_ne : (a b : K) → a ≢ b → (a == b) ≡ false
  ==_of_ne a b h = ground (arith, k.eq_iff a b)
