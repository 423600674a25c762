-- ===== src/Base/Sets.antt =====
-- `Set` objects of the source: lists in insertion order without repetition.
use mathlib.Core.Path.{◌≡◌, refl}
use mathlib.Core.Bool.{Bool, true, false, not, ◌&&◌, ◌||◌}
use mathlib.Core.List.{List, [], ◌∷◌, ◌++◌}
use native.Mathlib.Omega.{arith}
use agent_workflow_fast_api.Base.Tests.{if◌then◌else◌}
use agent_workflow_fast_api.Base.Equality.{StrictEq, ◌==◌, ==_iff}
use agent_workflow_fast_api.Base.Lists.{filter}

module _ {ℓ} {A : Type ℓ} ⦃e : StrictEq A⦄ where
  -- `has` of a set, `includes` of an array.
  abbrev pub contains : List A → A → Bool
  contains [] a = false
  contains (x ∷ xs) a = x == a || contains xs a

  -- No entry stands twice.
  abbrev pub distinct : List A → Bool
  distinct [] = true
  distinct (x ∷ xs) = not (contains xs x) && distinct xs

  unfoldable pub set_add : List A → A → List A
  set_add s a = if contains s a then s else s ++ (a ∷ [])

  unfoldable pub set_delete : List A → A → List A
  set_delete s a = filter (λ x. not (x == a)) s

  set_add_all : List A → List A → List A
  set_add_all s [] = s
  set_add_all s (a ∷ l) = set_add_all (set_add s a) l

  -- `new Set(l)`
  unfoldable pub set_of : List A → List A
  unfolding set_add_all set_add
  set_of l = set_add_all [] l

  pub contains-append :
      (xs ys : List A) (a : A) → contains (xs ++ ys) a ≡ (contains xs a || contains ys a)
  contains-append [] ys a = refl
  contains-append (x ∷ xs) ys a = ground (arith, contains-append xs ys a)

  pub contains-filter :
      (p : A → Bool) (xs : List A) (a : A) → contains (filter p xs) a ≡ (p a && contains xs a)
  contains-filter p [] a = ground arith
  contains-filter p (x ∷ xs) a = ground (arith, contains-filter p xs a, ==_iff x a)

  pub contains-set_add :
      (s : List A) (a b : A) → contains (set_add s a) b ≡ (a == b || contains s b)
  unfolding set_add
  contains-set_add s a b = ground (arith, contains-append s (a ∷ []) b, ==_iff a b)

  pub contains-set_delete :
      (s : List A) (a b : A) → contains (set_delete s a) b ≡ (not (a == b) && contains s b)
  unfolding set_delete
  contains-set_delete s a b =
      ground (arith, contains-filter (λ x. not (x == a)) s b, ==_iff a b, ==_iff b a)

  contains-set_add_all :
      (s l : List A) (b : A) → contains (set_add_all s l) b ≡ (contains s b || contains l b)
  unfolding set_add_all
  contains-set_add_all s [] b = ground arith
  contains-set_add_all s (a ∷ l) b =
      ground (arith, contains-set_add_all (set_add s a) l b, contains-set_add s a b)

  pub contains-set_of : (l : List A) (b : A) → contains (set_of l) b ≡ contains l b
  unfolding set_of
  contains-set_of l b = contains-set_add_all [] l b

module _ {ℓ} {A : Type ℓ} ⦃e : StrictEq A⦄ where
  distinct-snoc :
      (xs : List A) (a : A)
      → distinct xs ≡ true
      → contains xs a ≡ false
      → distinct (xs ++ (a ∷ [])) ≡ true
  distinct-snoc [] a d h = refl
  distinct-snoc (x ∷ xs) a d h =
      ground (arith, distinct-snoc xs a, contains-append xs (a ∷ []) x, ==_iff a x, ==_iff x a)

  distinct-set_add_all : (s l : List A) → distinct s ≡ true → distinct (set_add_all s l) ≡ true
  unfolding set_add_all set_add
  distinct-set_add_all s [] d = d
  distinct-set_add_all s (a ∷ l) d =
      distinct-set_add_all (set_add s a) l (ground (arith, distinct-snoc s a))

  pub distinct-set_of : (l : List A) → distinct (set_of l) ≡ true
  unfolding set_of
  distinct-set_of l = distinct-set_add_all [] l refl

pub ruleset sets =
    (contains-append, contains-filter, contains-set_add, contains-set_delete, contains-set_of)
