-- ===== src/Settings/Same.antt =====
-- frontend/src/components/settings/memberPermissions.tsx: `haveSamePermissions` on lists as sets.
use agent_workflow_fast_api.Base.{
  suc, ◌≤◌, String, true, false, not, List, [], ◌∷◌, ◌≡◌, ◌↔◌, refl, ap, arith, ◌==◌, string_eq,
  number_eq, ==_iff, filter, all, length-filter-le, contains, distinct, set_of, contains-set_of,
  contains-filter, distinct-set_of, subst, eq_of_==, ==-refl, length, Bool-cases, inl, inr,
}
use agent_workflow_fast_api.Settings.Members.{have_same_permissions}

-- A text that stands once is lost by leaving it out, and nothing else.
length-filter-apart :
    (x : String) (ys : List String)
    → contains ys x ≡ false
    → length (filter (λ y. not (y == x)) ys) ≡ length ys
length-filter-apart x [] h = refl
length-filter-apart x (y ∷ ys) h = ground (arith, length-filter-apart x ys)

length-filter-once :
    (x : String) (ys : List String)
    → distinct ys ≡ true
    → contains ys x ≡ true
    → suc (length (filter (λ y. not (y == x)) ys)) ≡ length ys
length-filter-once x [] d h = cc
length-filter-once x (y ∷ ys) d h = elim (Bool-cases (y == x)) [
  | inl e ↦
      let alone : contains ys x ≡ false = ground (arith, ==_iff y x) in
      rw e (ap suc (length-filter-apart x ys alone))
  | inr e ↦ rw e (ap suc (length-filter-once x ys (ground arith) (ground arith)))
]

length-filter-lt :
    (x : String) (ys : List String)
    → contains ys x ≡ true
    → suc (length (filter (λ y. not (y == x)) ys)) ≤ length ys
length-filter-lt x [] h = cc
length-filter-lt x (y ∷ ys) h = elim (Bool-cases (y == x)) [
  | inl e ↦ rw e (let l = length-filter-le (λ y. not (y == x)) ys in omega arith)
  | inr e ↦ rw e (let l = length-filter-lt x ys (ground arith) in omega arith)
]

distinct-filter-apart :
    (x : String) (ys : List String)
    → distinct ys ≡ true
    → distinct (filter (λ y. not (y == x)) ys) ≡ true
distinct-filter-apart x [] d = refl
distinct-filter-apart x (y ∷ ys) d = elim (Bool-cases (y == x)) [
  | inl e ↦ rw e (distinct-filter-apart x ys (ground arith))
  | inr e ↦
      rw e (ground (arith, distinct-filter-apart x ys, contains-filter (λ z. not (z == x)) ys y))
]

all-contains-filter :
    (x : String) (xs ys : List String)
    → contains xs x ≡ false
    → all (λ z. contains ys z) xs ≡ true
    → all (λ z. contains (filter (λ y. not (y == x)) ys) z) xs ≡ true
all-contains-filter x [] ys h k = refl
all-contains-filter x (z ∷ xs) ys h k =
    ground
      (arith, all-contains-filter x xs ys, contains-filter (λ y. not (y == x)) ys z, ==_iff z x)

-- Distinct texts that are all among as many texts are all of them.
contains-of-subset :
    (xs ys : List String)
    → distinct xs ≡ true
    → distinct ys ≡ true
    → length ys ≤ length xs
    → all (λ z. contains ys z) xs ≡ true
    → (k : String) → contains ys k ≡ true
    → contains xs k ≡ true
contains-of-subset [] [] dx dy len sub k h = h
contains-of-subset [] (y ∷ ys) dx dy len sub k h = absurd (omega arith)
contains-of-subset (x ∷ xs) ys dx dy len sub k h =
    let once = length-filter-once x ys dy (ground arith) in
    let fewer =
      contains-of-subset xs (filter (λ y. not (y == x)) ys) (ground arith)
        (distinct-filter-apart x ys dy) (omega arith)
        (all-contains-filter x xs ys (ground arith) (ground arith)) k in
    ground (arith, fewer, contains-filter (λ y. not (y == x)) ys k, ==_iff k x, ==_iff x k)

length-subset :
    (xs ys : List String)
    → distinct xs ≡ true
    → all (λ z. contains ys z) xs ≡ true
    → length xs ≤ length ys
length-subset [] ys d sub = omega arith
length-subset (x ∷ xs) ys d sub =
    let fewer =
      length-subset xs (filter (λ y. not (y == x)) ys) (ground arith)
        (all-contains-filter x xs ys (ground arith) (ground arith)) in
    let lost = length-filter-lt x ys (ground arith) in omega arith

all-contains_iff :
    (xs ys : List String)
    → (all (λ z. contains ys z) xs ≡ true)
      ↔ ((k : String) → contains xs k ≡ true → contains ys k ≡ true)
all-contains_iff [] ys = (λ h k m. cc, λ h. refl)
all-contains_iff (x ∷ xs) ys =
    let (there, back) = all-contains_iff xs ys in
    (
      λ h k m.
          let rest = there (ground arith) k in
          elim (Bool-cases (x == k)) [
            | inl e ↦ subst (λ j. contains ys j ≡ true) (eq_of_== x k e) (ground arith)
            | inr e ↦ rest (ground arith)
          ],
      λ h.
          let own = h x (ground (arith, ==-refl x)) in
          let others = back (λ k m. h k (ground arith)) in ground arith,
    )

-- `haveSamePermissions` answers that two lists are the same just if the same permissions stand in them,
-- in any order and any number.
pub have_same_permissions_iff :
    (left right : List String)
    → (have_same_permissions left right ≡ true)
      ↔ ((permission : String) → contains left permission ≡ contains right permission)
unfolding have_same_permissions
have_same_permissions_iff left right =
    let ls = set_of left in
    let rs = set_of right in
    (
      λ h k.
          let sizes : length ls ≡ length rs = ground (arith, ==_iff (length ls) (length rs)) in
          let among : all (λ z. contains rs z) ls ≡ true = ground arith in
          let into = (all-contains_iff ls rs).0 among k in
          let onto =
            contains-of-subset ls rs (distinct-set_of left) (distinct-set_of right) (omega arith)
              among k in
          ground (arith, into, onto, contains-set_of left k, contains-set_of right k),
      λ h.
          let into : (k : String) → contains ls k ≡ true → contains rs k ≡ true =
            λ k m. ground (arith, h k, contains-set_of left k, contains-set_of right k) in
          let onto : (k : String) → contains rs k ≡ true → contains ls k ≡ true =
            λ k m. ground (arith, h k, contains-set_of left k, contains-set_of right k) in
          let among = (all-contains_iff ls rs).1 into in
          let fewer = length-subset ls rs (distinct-set_of left) among in
          let more =
            length-subset rs ls (distinct-set_of right) ((all-contains_iff rs ls).1 onto) in
          let sizes : length ls ≡ length rs = omega arith in
          ground (arith, ==_iff (length ls) (length rs)),
    )
