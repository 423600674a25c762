-- ===== src/Base/Keys.antt =====
-- Rows with a key that stands once: the keys of rows that are added, selected and changed.
use mathlib.Core.Path.{◌≡◌, refl, ap}
use mathlib.Core.Logic.{inl, inr}
use mathlib.Core.Bool.{Bool, true, false, ◌||◌}
use mathlib.Core.List.{List, [], ◌∷◌, ◌++◌, map}
use Prim.Native.String.{String}
use native.Mathlib.Omega.{arith}
use agent_workflow_fast_api.Base.Tests.{if◌then◌else◌, Bool-cases}
use agent_workflow_fast_api.Base.Equality.{◌==◌, ==_iff, string_eq}
use agent_workflow_fast_api.Base.Lists.{filter, any}
use agent_workflow_fast_api.Base.Sets.{contains, distinct}

module _ {A : Type 0} (key : A → String) where
  pub contains-append-new :
      (a : A) (k : String) (xs : List A)
      → contains (map key (xs ++ (a ∷ []))) k ≡ (contains (map key xs) k || key a == k)
  contains-append-new a k [] = ground arith
  contains-append-new a k (x ∷ xs) = ground (arith, contains-append-new a k xs)

  pub distinct-append-new :
      (a : A) (xs : List A)
      → any (λ x. key x == key a) xs ≡ false
      → distinct (map key xs) ≡ true
      → distinct (map key (xs ++ (a ∷ []))) ≡ true
  distinct-append-new a [] free h = refl
  distinct-append-new a (x ∷ xs) free h = ground (
    arith,
    distinct-append-new a xs,
    contains-append-new a (key x) xs,
    ==_iff (key x) (key a),
    ==_iff (key a) (key x),
  )

  pub contains-map-filter :
      (q : A → Bool) (k : String) (xs : List A)
      → contains (map key xs) k ≡ false
      → contains (map key (filter q xs)) k ≡ false
  contains-map-filter q k [] h = refl
  contains-map-filter q k (x ∷ xs) h = ground (arith, contains-map-filter q k xs)

  pub distinct-filter :
      (q : A → Bool) (xs : List A)
      → distinct (map key xs) ≡ true
      → distinct (map key (filter q xs)) ≡ true
  distinct-filter q [] h = refl
  distinct-filter q (x ∷ xs) h =
      ground (arith, distinct-filter q xs, contains-map-filter q (key x) xs)

  -- Rows that are changed keep their keys.
  pub map-key :
      (q : A → Bool) (f : A → A) (xs : List A)
      → ((x : A) → key (f x) ≡ key x)
      → map key (map (λ x. if q x then f x else x) xs) ≡ map key xs
  map-key q f [] same = refl
  map-key q f (x ∷ xs) same = elim (Bool-cases (q x)) [
    | inl e ↦ rw (e, map-key q f xs same) (ap (λ k. k ∷ map key xs) (same x))
    | inr e ↦ rw (e, map-key q f xs same) refl
  ]
