-- ===== src/Common/Equality.antt =====
-- `==` of the types that the program compares, one operator for all.
use Prim.Native.Nat.{ℕ}
use Prim.Native.String.{String}
use mathlib.Core.Path.{◌≡◌, refl}
use mathlib.Core.Logic.{◌↔◌}
use mathlib.Core.Bool.{Bool, true, false}
use mathlib.Core.Option.{Option, none, some}
use text.Mathlib.Text.{◌==◌ as str_eq}
use text.Mathlib.TextEquality.{eq_iff}
use resume_screening_service.Common.Tests.{nat_beq, nat_beq_iff}

-- A type whose values the code compares, with its test and what the test decides.
pub record Comparable {ℓ} (A : Type ℓ) : Type ℓ where
  pub same : A → A → Bool
  pub same_iff : (x y : A) → (same x y ≡ true) ↔ (x ≡ y)

abbrev pub ◌==◌ {ℓ} : {A : Type ℓ} ⦃c : Comparable A⦄ → A → A → Bool
◌==◌ ⦃c⦄ x y = c.same x y

infix 50 ◌==◌
instance abbrev pub string_eq : Comparable String
string_eq = record { same = str_eq; same_iff = λ x y. eq_iff x y }

instance abbrev pub nat_eq : Comparable ℕ
nat_eq = record { same = nat_beq; same_iff = λ x y. nat_beq_iff x y }

module _ {ℓ} {A : Type ℓ} ⦃e : Comparable A⦄ where
  pub ==-refl : (a : A) → (a == a) ≡ true
  ==-refl a = (e.same_iff a a).1 refl

  pub eq_of_== : (a b : A) → (a == b) ≡ true → a ≡ b
  eq_of_== a b = (e.same_iff a b).0

-- A nullable column compared with a value: NULL equals nothing.
abbrev pub option_is {ℓ} : {A : Type ℓ} ⦃e : Comparable A⦄ → Option A → A → Bool
option_is none a = false
option_is (some b) a = b == a

pub option_is_iff {ℓ} :
    {A : Type ℓ} ⦃e : Comparable A⦄ (o : Option A) (a : A) → (option_is o a ≡ true) ↔ (o ≡ some a)
option_is_iff none a = (λ h. cc, λ h. cc)
option_is_iff ⦃e⦄ (some b) a = (λ h. cc (eq_of_== b a h), λ h. (e.same_iff b a).1 (some_inj h))
  where
    some_inj : some b ≡ some a → b ≡ a
    some_inj h = cc
