-- ===== src/Conversations/Contract/Rows.antt =====
-- The first row that a test selects, in rows that are added, changed or deleted.
use mathlib.Core.Option
use agent_workflow_fast_api.Base.{
  String, Bool, true, false, List, [], ◌∷◌, ◌++◌, map, none, some, ◌≡◌, refl, ap, ◌∙◌, subst, arith,
  ◌==◌, string_eq, ==_iff, eq_of_==, if◌then◌else◌, filter, find?, any, contains, distinct, kept,
  Bool-cases, inl, inr,
}
use agent_workflow_fast_api.Conversations.Contract.{holds}

module _ {A : Type 0} (r : A → Bool) where
  pub find?-append-new :
      (a : A) (xs : List A)
      → (r a ≡ true → any r xs ≡ false)
      → find? r (xs ++ (a ∷ [])) ≡ (if r a then some a else find? r xs)
  find?-append-new a [] h = refl
  find?-append-new a (x ∷ xs) h = ground (arith, find?-append-new a xs)

  -- The rows that the test selects are all kept or all dropped.
  pub find?-filter-class :
      (q : A → Bool) (b : Bool) (xs : List A)
      → ((x : A) → r x ≡ true → q x ≡ b)
      → find? r (filter q xs) ≡ (if b then find? r xs else none)
  find?-filter-class q b [] h = ground arith
  find?-filter-class q b (x ∷ xs) h = ground (arith, find?-filter-class q b xs h, h x)

  -- They are all changed or all left.
  pub find?-map-class :
      (q : A → Bool) (f : A → A) (b : Bool) (xs : List A)
      → ((x : A) → r (f x) ≡ r x)
      → ((x : A) → r x ≡ true → q x ≡ b)
      → find? r (map (λ x. if q x then f x else x) xs)
        ≡ (if b then Option.map f (find? r xs) else find? r xs)
  find?-map-class q f b [] same h = ground arith
  find?-map-class q f b (x ∷ xs) same h = elim (Bool-cases (q x)) [
    | inl e ↦ rw e (ground (arith, find?-map-class q f b xs same h, h x, same x))
    | inr e ↦ rw e (ground (arith, find?-map-class q f b xs same h, h x))
  ]

  -- Two tests that agree on the rows that are looked for.
  pub kept-find? :
      (q p : A → Bool) (xs : List A)
      → ((x : A) → r x ≡ true → q x ≡ p x)
      → kept q (find? r xs) ≡ kept p (find? r xs)
  kept-find? q p [] h = refl
  kept-find? q p (x ∷ xs) h = elim (Bool-cases (r x)) [
    | inl e ↦ rw (e, h x e) refl
    | inr e ↦ rw e (kept-find? q p xs h)
  ]

  module _ (key : A → String) (k : String) (named : (x : A) → r x ≡ true → key x ≡ k) where
    lacking : (xs : List A) → contains (map key xs) k ≡ false → find? r xs ≡ none
    lacking [] h = refl
    lacking (x ∷ xs) h = ground (arith, lacking xs, named x, ==_iff (key x) k)

    -- No second row has the key of the first.
    pub find?-filter-kept :
        (q : A → Bool) (xs : List A)
        → distinct (map key xs) ≡ true
        → find? r (filter q xs) ≡ kept q (find? r xs)
    find?-filter-kept q [] h = refl
    find?-filter-kept q (x ∷ xs) h =
        let rest : distinct (map key xs) ≡ true = ground arith in
        let apart : contains (map key xs) (key x) ≡ false = ground arith in
        elim (Bool-cases (r x)) [
          | inl e ↦
              let gone =
                lacking xs (subst (λ j. contains (map key xs) j ≡ false) (named x e) apart) in
              elim (Bool-cases (q x)) [
                | inl keep ↦ rw (e, keep) (rw e refl)
                | inr drop ↦ rw (e, drop) (find?-filter-kept q xs rest ∙ ap (kept q) gone)
              ]
          | inr e ↦ elim (Bool-cases (q x)) [
            | inl keep ↦ rw (e, keep) (rw e (find?-filter-kept q xs rest))
            | inr drop ↦ rw (e, drop) (find?-filter-kept q xs rest)
          ]
        ]

module _ {A : Type 0} (key : A → String) where
  -- A key stands among those of the selected rows, if the row of the key is selected.
  pub contains-keys :
      (q : A → Bool) (k : String) (xs : List A)
      → distinct (map key xs) ≡ true
      → contains (map key (filter q xs)) k ≡ holds q (find? (λ x. key x == k) xs)
  contains-keys q k [] h = refl
  contains-keys q k (x ∷ xs) h =
      let rest : distinct (map key xs) ≡ true = ground arith in
      let apart : contains (map key xs) (key x) ≡ false = ground arith in
      elim (Bool-cases (q x)) [
        | inl own ↦ rw own (ground (arith, contains-keys q k xs rest))
        | inr other ↦ elim (Bool-cases (key x == k)) [
          | inl e ↦
              let gone : find? (λ y. key y == k) xs ≡ none =
                lacking (λ y. key y == k) key k (λ y s. eq_of_== (key y) k s) xs
                  (subst (λ j. contains (map key xs) j ≡ false) (eq_of_== (key x) k e) apart) in
              rw (e, other) (contains-keys q k xs rest ∙ ap (holds q) gone)
          | inr e ↦ rw (e, other) (contains-keys q k xs rest)
        ]
      ]
