-- ===== src/Database/Sorting.antt =====
-- Insertion sort as an engine: an ordering that meets what Database.antt asks for.
use mathlib.Core.List.{Mem, Perm, Pairwise, Pairwise-cons, Pairwise-singleton, mem-cons}
use mathlib.Core.List.Perm
use mathlib.Core.List.Pairwise
use mathlib.Core.Logic.Or
use agent_workflow_fast_api.Base.{
  ℕ, ◌≤◌, Bool, true, false, List, [], ◌∷◌, ◌≡◌, inl, inr, arith, leb, leb→le, if◌then◌else◌,
  Bool-cases,
}
use agent_workflow_fast_api.Database.Engine.{Engine}

module _ {A : Type 0} (before : A → A → Bool) where
  pub insert_by : A → List A → List A
  insert_by a [] = a ∷ []
  insert_by a (b ∷ l) = if before a b then a ∷ b ∷ l else b ∷ insert_by a l

  pub sort_by : List A → List A
  unfolding insert_by
  sort_by [] = []
  sort_by (a ∷ l) = insert_by a (sort_by l)

  insert_by-perm : (a : A) (l : List A) → Perm (insert_by a l) (a ∷ l)
  unfolding insert_by
  insert_by-perm a [] = Perm.refl _
  insert_by-perm a (b ∷ l) = elim (Bool-cases (before a b)) [
    | inl e ↦ rw e (Perm.refl _)
    | inr e ↦ rw e (Perm.trans (Perm.cons b (insert_by-perm a l)) (Perm.swap a b l))
  ]

  pub sort_by-perm : (l : List A) → Perm (sort_by l) l
  unfolding sort_by
  sort_by-perm [] = Perm.refl _
  sort_by-perm (a ∷ l) = Perm.trans (insert_by-perm a (sort_by l)) (Perm.cons a (sort_by-perm l))

  module _ (total : (a b : A) → before a b ≡ false → before b a ≡ true)
      (trans : (a b c : A) → before a b ≡ true → before b c ≡ true → before a c ≡ true) where
    before_cons :
        (b a : A) (l : List A)
        → before b a ≡ true
        → ((x : A) → Mem x l → before b x ≡ true)
        → (x : A) → Mem x (a ∷ l)
        → before b x ≡ true
    before_cons b a l e h x m = Or.elim (Bool-set _ _) (mem-cons.0 m) (λ s. rw s e) (h x)
      where
        Bool-set : IsSet Bool
        Bool-set = hlevel

    insert_by-sorted :
        (a : A) (l : List A)
        → Pairwise (λ x y. before x y ≡ true) l
        → Pairwise (λ x y. before x y ≡ true) (insert_by a l)
    unfolding insert_by
    insert_by-sorted a [] h = Pairwise-singleton _ a
    insert_by-sorted a (b ∷ l) h = elim (Bool-cases (before a b)) [
      | inl e ↦ rw e (
          Pairwise-cons.1
            (before_cons a b l e (λ x m. trans a b x e ((Pairwise-cons.0 h).0 x m)), h))
      | inr e ↦ rw e (
          Pairwise-cons.1 (
            λ x m.
                before_cons b a l (total a b e) (Pairwise-cons.0 h).0 x
                  ((Perm.mem_iff (insert_by-perm a l)).0 m),
            insert_by-sorted a l (Pairwise-cons.0 h).1,
          ))
    ]

    sort_by-sorted : (l : List A) → Pairwise (λ x y. before x y ≡ true) (sort_by l)
    unfolding sort_by
    sort_by-sorted [] = Pairwise.nil
    sort_by-sorted (a ∷ l) = insert_by-sorted a (sort_by l) (sort_by-sorted l)

pub ascending : (A : Type 0) → (A → ℕ) → List A → List A
unfolding sort_by
ascending A key = sort_by (λ a b. leb (key a) (key b))

pub descending : (A : Type 0) → (A → ℕ) → List A → List A
unfolding sort_by
descending A key = sort_by (λ a b. leb (key b) (key a))

pub ascending-sorted :
    (A : Type 0) (key : A → ℕ) (rows : List A)
    → Pairwise (λ a b. key a ≤ key b) (ascending A key rows)
unfolding ascending
ascending-sorted A key rows =
    Pairwise.imp (λ a b h. leb→le (key a) (key b) h)
      (sort_by-sorted (λ a b. leb (key a) (key b)) (λ a b h. ground arith)
        (λ a b c h k. ground arith) rows)

pub descending-sorted :
    (A : Type 0) (key : A → ℕ) (rows : List A)
    → Pairwise (λ a b. key b ≤ key a) (descending A key rows)
unfolding descending
descending-sorted A key rows =
    Pairwise.imp (λ a b h. leb→le (key b) (key a) h)
      (sort_by-sorted (λ a b. leb (key b) (key a)) (λ a b h. ground arith)
        (λ a b c h k. ground arith) rows)

unfoldable pub sorting : Engine
unfolding ascending descending
sorting = record {
  asc = ascending;
  asc-perm = λ A key. sort_by-perm (λ a b. leb (key a) (key b));
  asc-sorted = ascending-sorted;
  desc = descending;
  desc-perm = λ A key. sort_by-perm (λ a b. leb (key b) (key a));
  desc-sorted = descending-sorted;
}
