-- ===== src/Base/Equality.antt =====
-- Strict equality (`===`) on the types that the program compares, as an instance.
use Prim.Native.Nat.{ℕ, compare, Ordering}
use Prim.Native.String.{String}
use mathlib.Core.Path.{◌≡◌, refl}
use mathlib.Core.Logic.{◌↔◌, inl, inr, ◌≢◌}
use mathlib.Core.Bool.{Bool, true, false}
use mathlib.Core.Option.{Option, none, some}
use native.Mathlib.Omega.{arith}
use text.Mathlib.Text.{◌==◌ as same_text}
use text.Mathlib.TextEquality.{eq_iff}
use agent_workflow_fast_api.Base.Tests.{Bool-cases}

pub record StrictEq {ℓ} (A : Type ℓ) : Type ℓ where
  pub test : A → A → Bool
  pub test_iff : (a b : A) → (test a b ≡ true) ↔ (a ≡ b)

abbrev pub same_number : ℕ → ℕ → Bool
same_number m n = elim (compare m n) [ Ordering.eq ↦ true | _ ↦ false ]

pub same_number_iff : (m n : ℕ) → (same_number m n ≡ true) ↔ (m ≡ n)
same_number_iff m n = ground arith

instance abbrev pub number_eq : StrictEq ℕ
number_eq = record { test = same_number; test_iff = same_number_iff }

instance abbrev pub string_eq : StrictEq String
string_eq = record { test = same_text; test_iff = eq_iff }

module _ {ℓ} {A : Type ℓ} ⦃e : StrictEq A⦄ where
  infix 50 ◌==◌
  abbrev pub ◌==◌ : A → A → Bool
  a == b = e.test a b

  pub ==-refl : (a : A) → (a == a) ≡ true
  ==-refl a = (e.test_iff a a).1 refl

  pub eq_of_== : (a b : A) → (a == b) ≡ true → a ≡ b
  eq_of_== a b = (e.test_iff a b).0

  pub ==_iff : (a b : A) → ((a == b) ≡ true) ↔ (a ≡ b)
  ==_iff a b = e.test_iff a b

  pub ==_of_ne : (a b : A) → a ≢ b → (a == b) ≡ false
  ==_of_ne a b n = elim (Bool-cases (a == b)) [ inl h ↦ absurd (n (eq_of_== a b h)) | inr h ↦ h ]

  pub ne_of_== : (a b : A) → (a == b) ≡ false → a ≢ b
  ne_of_== a b h s = ground (arith, ==_iff a b)

  pub ==-comm : (a b : A) → (a == b) ≡ (b == a)
  ==-comm a b = ground (arith, ==_iff a b, ==_iff b a)

unfoldable pub some_is {ℓ} : {A : Type ℓ} ⦃e : StrictEq A⦄ → Option A → A → Bool
some_is none a = false
some_is (some b) a = b == a
