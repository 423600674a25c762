-- ===== src/Library/OneLoad.antt =====
-- frontend/src/components/upload/knowledgeFileLibrary.tsx: the controllers of one kind of loads.
use agent_workflow_fast_api.Base.{
  ℕ, Bool, true, false, not, ◌||◌, List, [], ◌∷◌, Option, none, some, ◌≡◌, refl, arith, ◌==◌,
  string_eq, number_eq, ==_iff, ==-refl, filter, all, contains, contains-filter, Bool-cases, inl,
  inr,
}
use agent_workflow_fast_api.Library.Loads.{
  Loads, aborting, abort_current, begin_load, is_number, finish_load,
}

abbrev pub is_held : Option ℕ → Bool
is_held none = false
is_held (some i) = true

abbrev pub is_under_way : Option ℕ → List ℕ → Bool
is_under_way none under_way = true
is_under_way (some i) under_way = contains under_way i

-- The page says that it is loading just while it holds a controller; the request of that controller is
-- under way, and every other request that is under way is aborted.
pub record IsOneLoad (l : Loads) : Type 0 where
  pub loading : l.is_loading ≡ is_held l.current
  pub held : is_under_way l.current l.under_way ≡ true
  pub others : all (λ i. contains l.aborted i || is_number l.current i) l.under_way ≡ true

aborting-live :
    (current : Option ℕ) (aborted under_way : List ℕ)
    → all (λ i. contains aborted i || is_number current i) under_way ≡ true
    → all (λ i. contains (aborting current aborted) i) under_way ≡ true
aborting-live current aborted [] h = refl
aborting-live none aborted (i ∷ is) h = ground (arith, aborting-live none aborted is)
aborting-live (some c) aborted (i ∷ is) h = ground (arith, aborting-live (some c) aborted is)

all-or : (p q : ℕ → Bool) (is : List ℕ) → all p is ≡ true → all (λ i. p i || q i) is ≡ true
all-or p q [] h = refl
all-or p q (i ∷ is) h = ground (arith, all-or p q is)

pub begin_load-IsOneLoad : (l : Loads) → IsOneLoad l → IsOneLoad (begin_load l)
unfolding begin_load
begin_load-IsOneLoad l h =
    let gone = aborting-live l.current l.aborted l.under_way h.others in
    let rest =
      all-or (λ i. contains (aborting l.current l.aborted) i) (λ i. l.started == i) l.under_way
        gone in
    record {
      loading = refl;
      held = ground (arith, ==-refl l.started);
      others = ground (arith, rest, ==-refl l.started);
    }

pub abort_current-IsOneLoad : (l : Loads) → IsOneLoad l → IsOneLoad (abort_current l)
unfolding abort_current
abort_current-IsOneLoad l h = record {
  loading = h.loading;
  held = h.held;
  others =
      all-or (λ i. contains (aborting l.current l.aborted) i) (is_number l.current) l.under_way
        (aborting-live l.current l.aborted l.under_way h.others);
}

finish-others :
    (i : ℕ) (p q : ℕ → Bool) (is : List ℕ)
    → ((j : ℕ) → (j == i) ≡ false → p j ≡ true → q j ≡ true)
    → all p is ≡ true
    → all q (filter (λ j. not (j == i)) is) ≡ true
finish-others i p q [] same h = refl
finish-others i p q (j ∷ js) same h = elim (Bool-cases (j == i)) [
  | inl e ↦ rw e (finish-others i p q js same (ground arith))
  | inr e ↦ rw e (ground (arith, same j e, finish-others i p q js same))
]

is_number_only :
    (c : Option ℕ) (i j : ℕ) → is_number c i ≡ true → (j == i) ≡ false → is_number c j ≡ false
is_number_only none i j h k = refl
is_number_only (some c) i j h k = ground (arith, ==_iff c i, ==_iff c j, ==_iff j i)

is_under_way-filter :
    (c : Option ℕ) (i : ℕ) (under_way : List ℕ)
    → is_number c i ≡ false
    → is_under_way c under_way ≡ true
    → is_under_way c (filter (λ j. not (j == i)) under_way) ≡ true
is_under_way-filter none i under_way h k = refl
is_under_way-filter (some c) i under_way h k =
    ground (arith, contains-filter (λ j. not (j == i)) under_way c)

pub finish_load-IsOneLoad : (i : ℕ) (l : Loads) → IsOneLoad l → IsOneLoad (finish_load i l)
unfolding finish_load
finish_load-IsOneLoad i l h = elim (Bool-cases (is_number l.current i)) [
  | inl e ↦ record {
    loading = rw e refl;
    held = rw e refl;
    others = rw e (
        finish-others i (λ j. contains l.aborted j || is_number l.current j) _ l.under_way
          (λ j k p. (let gone = is_number_only l.current i j e k in ground arith)) h.others);
  }
  | inr e ↦ record {
    loading = rw e h.loading;
    held = rw e (is_under_way-filter l.current i l.under_way e h.held);
    others = rw e (
        finish-others i (λ j. contains l.aborted j || is_number l.current j) _ l.under_way
          (λ j k p. p) h.others);
  }
]
