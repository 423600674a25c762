-- ===== src/Base/Maps.antt =====
-- `Map` with keys that are texts: its entries in the order in which their keys were first set.
use mathlib.Core.Path.{◌≡◌, refl, ap, subst, ◌∙◌}
use mathlib.Core.Logic.{inl, inr}
use mathlib.Core.Bool.{Bool, not}
use mathlib.Core.Option.{Option, none, some}
use mathlib.Core.Option
use mathlib.Core.List.{List, [], ◌∷◌, map}
use Prim.Native.String.{String}
use native.Mathlib.Omega.{arith}
use agent_workflow_fast_api.Base.Tests.{if◌then◌else◌, Bool-cases}
use agent_workflow_fast_api.Base.Equality.{◌==◌, string_eq, ==_iff, ==-refl, ==-comm, eq_of_==}
use agent_workflow_fast_api.Base.Lists.{filter}

abbrev pub Map {ℓ} : Type ℓ → Type ℓ
Map A = List (String × A)

module _ {ℓ} {A : Type ℓ} where
  abbrev pub map_get : String → Map A → Option A
  map_get k [] = none
  map_get k ((j, a) ∷ m) = if j == k then some a else map_get k m

  -- The entry of a key that is there keeps its place.
  abbrev pub map_set : String → A → Map A → Map A
  map_set k a [] = (k, a) ∷ []
  map_set k a ((j, b) ∷ m) = if j == k then (j, a) ∷ m else (j, b) ∷ map_set k a m

  abbrev pub map_delete : String → Map A → Map A
  map_delete k m = filter (λ e. not (e.0 == k)) m

  -- No key has two entries.
  abbrev pub IsKeyed : Map A → Type ℓ
  IsKeyed [] = Unit
  IsKeyed ((k, a) ∷ m) = (map_get k m ≡ none) × IsKeyed m

module _ {ℓ} {A : Type ℓ} where
  pub map_get-set :
      (k j : String) (a : A) (m : Map A)
      → map_get k (map_set j a m) ≡ (if j == k then some a else map_get k m)
  map_get-set k j a [] = refl
  map_get-set k j a ((i, b) ∷ m) =
      ground (arith, map_get-set k j a m, ==_iff i j, ==_iff i k, ==_iff j k)

  pub map_get-delete :
      (k j : String) (m : Map A)
      → map_get k (map_delete j m) ≡ (if j == k then none else map_get k m)
  map_get-delete k j [] = ground arith
  map_get-delete k j ((i, b) ∷ m) =
      ground (arith, map_get-delete k j m, ==_iff i j, ==_iff i k, ==_iff j k)

  abbrev pub kept : (A → Bool) → Option A → Option A
  kept p none = none
  kept p (some a) = if p a then some a else none

  -- Entries may be dropped by their key and value.
  pub map_get-filter :
      (q : String × A → Bool) (k : String) (m : Map A)
      → IsKeyed m
      → map_get k (filter q m) ≡ kept (λ a. q (k, a)) (map_get k m)
  map_get-filter q k [] h = refl
  map_get-filter q k ((i, b) ∷ m) (n, h) = elim (Bool-cases (i == k)) [
    | inr e ↦ elim (Bool-cases (q (i, b))) [
      | inl keep ↦ rw (e, keep) (simp e (map_get-filter q k m h))
      | inr drop ↦ rw (e, drop) (map_get-filter q k m h)
    ]
    | inl e ↦
        let same : i ≡ k = eq_of_== i k e in
        subst
          (λ j. map_get j (filter q ((i, b) ∷ m)) ≡ kept (λ a. q (j, a)) (map_get j ((i, b) ∷ m)))
          same (at_key i b m (map_get-filter q i m h ∙ ap (kept (λ a. q (i, a))) n))
  ]
    where
      at_key :
          (i : String) (b : A) (m : Map A)
          → map_get i (filter q m) ≡ none
          → map_get i (filter q ((i, b) ∷ m)) ≡ kept (λ a. q (i, a)) (map_get i ((i, b) ∷ m))
      at_key i b m n = elim (Bool-cases (q (i, b))) [
        | inl keep ↦ rw (==-refl i, keep) (rw (==-refl i) refl)
        | inr drop ↦ rw (==-refl i, drop) n
      ]

  pub map_get-map :
      (f : A → A) (k : String) (m : Map A)
      → map_get k (map (λ e. (e.0, f e.1)) m) ≡ Option.map f (map_get k m)
  map_get-map f k [] = refl
  map_get-map f k ((i, b) ∷ m) = ground (arith, map_get-map f k m)

  -- The keys stay without a second entry.
  pub map_set-IsKeyed : (k : String) (a : A) (m : Map A) → IsKeyed m → IsKeyed (map_set k a m)
  map_set-IsKeyed k a [] h = (refl, tt)
  map_set-IsKeyed k a ((i, b) ∷ m) (n, h) = elim (Bool-cases (i == k)) [
    | inl e ↦ rw e (n, h)
    | inr e ↦ rw e (map_get-set i k a m ∙ rw (==-comm k i, e) n, map_set-IsKeyed k a m h)
  ]

  pub filter-IsKeyed : (q : String × A → Bool) (m : Map A) → IsKeyed m → IsKeyed (filter q m)
  filter-IsKeyed q [] h = tt
  filter-IsKeyed q ((i, b) ∷ m) (n, h) = elim (Bool-cases (q (i, b))) [
    | inl keep ↦
        rw keep (map_get-filter q i m h ∙ ap (kept (λ a. q (i, a))) n, filter-IsKeyed q m h)
    | inr drop ↦ rw drop (filter-IsKeyed q m h)
  ]

  pub map-IsKeyed : (f : A → A) (m : Map A) → IsKeyed m → IsKeyed (map (λ e. (e.0, f e.1)) m)
  map-IsKeyed f [] h = tt
  map-IsKeyed f ((i, b) ∷ m) (n, h) = (map_get-map f i m ∙ ap (Option.map f) n, map-IsKeyed f m h)
