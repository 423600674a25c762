-- ===== src/Database/Engine.antt =====
-- What frontend/src/lib/db relies on of PostgreSQL, reached through drizzle-orm: an `orderBy` returns
-- the selected rows, each as often as before, sorted by its key. Rows of equal key come in any order.
use mathlib.Core.List.{Perm, Pairwise}
use agent_workflow_fast_api.Base.{ℕ, ◌≤◌, List}

pub record Engine : Type 1 where
  pub asc : (A : Type 0) → (A → ℕ) → List A → List A
  pub asc-perm : (A : Type 0) (key : A → ℕ) (rows : List A) → Perm (asc A key rows) rows
  pub asc-sorted :
      (A : Type 0) (key : A → ℕ) (rows : List A) → Pairwise (λ a b. key a ≤ key b) (asc A key rows)
  pub desc : (A : Type 0) → (A → ℕ) → List A → List A
  pub desc-perm : (A : Type 0) (key : A → ℕ) (rows : List A) → Perm (desc A key rows) rows
  pub desc-sorted :
      (A : Type 0) (key : A → ℕ) (rows : List A) → Pairwise (λ a b. key b ≤ key a) (desc A key rows)
