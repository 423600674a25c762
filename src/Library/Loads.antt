-- ===== src/Library/Loads.antt =====
-- frontend/src/components/upload/knowledgeFileLibrary.tsx: how a load aborts the one before it, with an
-- `AbortController` for each. Controllers are numbers, in the order in which they are made.
use agent_workflow_fast_api.Base.{
  ℕ, zero, suc, Bool, true, false, not, List, [], ◌∷◌, Option, none, some, ◌==◌, number_eq, filter,
  if◌then◌else◌,
}

-- `current` is the controller that the page holds, `under_way` those whose request has not settled.
pub record Loads : Type 0 where
  pub current : Option ℕ
  pub aborted : List ℕ
  pub under_way : List ℕ
  pub started : ℕ
  pub is_loading : Bool

abbrev pub no_loads : Loads
no_loads = record {
  current = none;
  aborted = [];
  under_way = [];
  started = zero;
  is_loading = false;
}

-- `controller.current?.abort()`
abbrev pub aborting : Option ℕ → List ℕ → List ℕ
aborting none aborted = aborted
aborting (some i) aborted = i ∷ aborted

unfoldable pub abort_current : Loads → Loads
abort_current l = record l { aborted = aborting l.current l.aborted }

-- The newest controller takes the place of the one before, which is aborted.
unfoldable pub begin_load : Loads → Loads
begin_load l = record {
  current = some l.started;
  aborted = aborting l.current l.aborted;
  under_way = l.started ∷ l.under_way;
  started = suc l.started;
  is_loading = true;
}

abbrev pub is_number : Option ℕ → ℕ → Bool
is_number none i = false
is_number (some j) i = j == i

-- `finally`
unfoldable pub finish_load : ℕ → Loads → Loads
finish_load i l = record l {
  under_way = filter (λ j. not (j == i)) l.under_way;
  current = if is_number l.current i then none else l.current;
  is_loading = if is_number l.current i then false else l.is_loading;
}
