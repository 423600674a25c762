-- ===== src/Base/Effects.antt =====
-- Effects of the source as values: a promise that resolves or rejects, and stateful code as a
-- function of the state. A rejection keeps the state that was reached.

use mathlib.Core.Path.{◌≡◌, refl}
use mathlib.Core.Logic.{◌⊎◌, inl, inr}

pub data Result {ℓ κ} (E : Type κ) (A : Type ℓ) : Type (ℓ ⊔ κ) where
  ok : A → Result E A
  err : E → Result E A

pub Result-cases {ℓ κ} :
    {E : Type κ} {A : Type ℓ} (r : Result E A) → ((a : A) × (r ≡ ok a)) ⊎ ((e : E) × (r ≡ err e))
Result-cases (ok a) = inl (a, refl)
Result-cases (err e) = inr (e, refl)

abbrev pub Io : Type 0 → Type 0 → Type 0 → Type 0
Io S E A = S → Result E A × S

module _ {S E : Type 0} where
  infixl 5 ◌>>=◌ ◌>>◌
  -- What follows a call: it runs on the state that the call leaves, unless the call rejects.
  abbrev pub after : {A B : Type 0} → Result E A × S → (A → Io S E B) → Result E B × S
  after (ok a, s) f = f a s
  after (err e, s) f = (err e, s)

  abbrev pub ◌>>=◌ : {A B : Type 0} → Io S E A → (A → Io S E B) → Io S E B
  ◌>>=◌ m f s = after (m s) f

  abbrev pub ◌>>◌ : {B : Type 0} → Io S E (Unit {0}) → Io S E B → Io S E B
  ◌>>◌ m k = m >>= λ _. k

  abbrev pub resolve : {A : Type 0} → A → Io S E A
  resolve a s = (ok a, s)

  abbrev pub throw : {A : Type 0} → E → Io S E A
  throw e s = (err e, s)

  after-eq-ok :
      {A B : Type 0} (r : Result E A × S) (f : A → Io S E B) {b : B} {t : S}
      → after r f ≡ (ok b, t)
      → (a : A) × (s : S) × (r ≡ (ok a, s)) × (f a s ≡ (ok b, t))
  after-eq-ok (ok a, s) f h = (a, s, refl, h)
  after-eq-ok (err e, s) f h = cc

  -- A block that resolves made its first call with a result, and went on from it.
  pub >>=-eq-ok :
      {A B : Type 0} (m : Io S E A) (f : A → Io S E B) (s : S) {b : B} {t : S}
      → (m >>= f) s ≡ (ok b, t)
      → (a : A) × (u : S) × (m s ≡ (ok a, u)) × (f a u ≡ (ok b, t))
  >>=-eq-ok m f s h = after-eq-ok (m s) f h
