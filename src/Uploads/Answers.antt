-- ===== src/Uploads/Answers.antt =====
-- frontend/src/components/upload/uploadPage.tsx: what the loop of `uploadFiles` makes of the answers to its
-- requests.
use mathlib.Core.List.{map-id, map-map}
use agent_workflow_fast_api.Base.{
  ℕ, ◌+◌, String, Bool, true, false, List, [], ◌∷◌, map, Option, none, some, ◌≡◌, inl, inr, refl,
  sym, ap, ◌∙◌, subst, arith, ◌==◌, eq_of_==, string_eq, number_eq, ==_iff, if◌then◌else◌, contains,
  Result, ok, err, Bool-cases,
}
use agent_workflow_fast_api.Http.Message.{Response}
use agent_workflow_fast_api.Http.Client.Fetch.{Platform}
use agent_workflow_fast_api.Http.Requests.Backend.{Requests, RequestError, Body}
use agent_workflow_fast_api.Uploads.Page.{UploadItem, update_item, upload_all}
use agent_workflow_fast_api.Uploads.Identities.{
  item_ids, Answered, outcome, outcome-id, outcome-Answered, sent_by, counted, upload_item-outcome,
}
use agent_workflow_fast_api.Uploads.Settled.{IsApart}

-- The id of each item with the answer to its request.
abbrev pub Answers : Type 0
Answers = List (String × Result RequestError Body)

abbrev pub answer_to : Answers → String → Option (Result RequestError Body)
answer_to [] id = none
answer_to ((k, answer) ∷ rest) id = if k == id then some answer else answer_to rest id

abbrev pub well : Result RequestError Body → ℕ
well (ok body) = 1
well (err e) = 0

-- How many requests were answered well.
abbrev pub answered_well : Answers → ℕ
answered_well [] = 0
answered_well ((k, answer) ∷ rest) = well answer + answered_well rest

-- What becomes of an item, by whether it is taken and what its request was answered.
abbrev pub Fate : Bool → Option (Result RequestError Body) → UploadItem → UploadItem → Type 0
Fate false answer before after = after ≡ before
Fate true none before after = ⊥
Fate true (some answer) before after = Answered answer before after

untouched :
    (b : Bool) (answer : Option (Result RequestError Body)) (x y : UploadItem)
    → b ≡ false
    → Fate b answer x y
    → y ≡ x
untouched true answer x y e h = cc
untouched false answer x y e h = h

pub Fate-id :
    (b : Bool) (answer : Option (Result RequestError Body)) (x y : UploadItem)
    → Fate b answer x y
    → y.id ≡ x.id
Fate-id false answer x y h = ap (λ z. z.id) h
Fate-id true none x y h = absurd h
Fate-id true (some (ok body)) x y h = h.0
Fate-id true (some (err e)) x y h = h.0

module _ (p : Platform) (text_of : Response → String) (encode : String → String)
    (percent : ℕ → ℕ → ℕ) (reports : UploadItem → List (ℕ × ℕ)) where
  -- One request for each item, in their order, each sent when the one before is answered.
  abbrev pub answers : String → List UploadItem → Requests → Answers × Requests
  answers kb [] requests = ([], requests)
  answers kb (item ∷ items) requests =
      let sent = sent_by p text_of encode percent reports kb item requests in
      let rest = answers kb items sent.1 in ((item.id, sent.0) ∷ rest.0, rest.1)

  pub answers-ids :
      (kb : String) (items : List UploadItem) (requests : Requests)
      → map (λ a. a.0) (answers kb items requests).0 ≡ item_ids items
  answers-ids kb [] requests = refl
  answers-ids kb (item ∷ items) requests = ap (◌∷◌ item.id) (answers-ids kb items _)

  counted-well :
      (answer : Result RequestError Body) (n rest : ℕ)
      → counted p text_of encode percent reports answer n + rest ≡ n + (well answer + rest)
  counted-well (ok body) n rest = omega arith
  counted-well (err e) n rest = omega arith

  -- The loop counts the requests that were answered well, and sends no others.
  pub upload_all-answers :
      (kb : String) (taken items : List UploadItem) (n : ℕ) (requests : Requests)
      → ((upload_all p text_of encode percent reports kb taken (items, n, requests)).1
          ≡ n + answered_well (answers kb taken requests).0)
        × ((upload_all p text_of encode percent reports kb taken (items, n, requests)).2
            ≡ (answers kb taken requests).1)
  unfolding upload_all
  upload_all-answers kb [] items n requests = (omega arith, refl)
  upload_all-answers kb (item ∷ taken) items n requests =
      let step = upload_item-outcome p text_of encode percent reports kb item items n requests in
      let sent = sent_by p text_of encode percent reports kb item requests in
      let (count, same) =
        upload_all-answers kb taken
          (update_item item.id (outcome p text_of encode percent reports sent.0 (reports item))
            items)
          (counted p text_of encode percent reports sent.0 n) sent.1 in
      (
        ap (λ s. (upload_all p text_of encode percent reports kb taken s).1) step
            ∙ count
            ∙ counted-well sent.0 n (answered_well (answers kb taken sent.1).0),
        ap (λ s. (upload_all p text_of encode percent reports kb taken s).2) step ∙ same,
      )

  -- The change of one turn, on one item.
  turn : String → UploadItem → Requests → UploadItem → UploadItem
  turn kb item requests x =
      if x.id == item.id
      then outcome p text_of encode percent reports
          (sent_by p text_of encode percent reports kb item requests).0 (reports item) x
      else x

  -- A turn and what comes after it, on one item.
  turn-Fate :
      (kb : String) (item : UploadItem) (taken : List UploadItem) (requests : Requests)
      (rest : Answers) (f : UploadItem → UploadItem) (x : UploadItem)
      → contains (item_ids taken) item.id ≡ false
      → ((y : UploadItem) → Fate (contains (item_ids taken) y.id) (answer_to rest y.id) y (f y))
      → Fate
          (contains (item_ids (item ∷ taken)) x.id)
          (answer_to
            ((item.id, (sent_by p text_of encode percent reports kb item requests).0) ∷ rest)
            x.id)
          x
          (f (turn kb item requests x))
  unfolding turn
  turn-Fate kb item taken requests rest f x alone each = elim (Bool-cases (x.id == item.id)) [
    | inl e ↦
        let back : (item.id == x.id) ≡ true =
          ground (arith, ==_iff x.id item.id, ==_iff item.id x.id) in
        let sent = (sent_by p text_of encode percent reports kb item requests).0 in
        let y = outcome p text_of encode percent reports sent (reports item) x in
        let same : y.id ≡ item.id =
          outcome-id p text_of encode percent reports sent (reports item) x
          ∙ eq_of_== x.id item.id e in
        let stay : f y ≡ y =
          untouched _ _ y (f y) (ap (contains (item_ids taken)) same ∙ alone) (each y) in
        rw (e, back)
          (subst (Answered sent x) (sym stay)
            (outcome-Answered p text_of encode percent reports sent (reports item) x))
    | inr e ↦
        let back : (item.id == x.id) ≡ false =
          ground (arith, ==_iff x.id item.id, ==_iff item.id x.id) in
        rw (e, back) (each x)
  ]

  -- The loop changes the items one by one, each by the answer to its request.
  pub upload_all-Fate :
      (kb : String) (taken items : List UploadItem) (n : ℕ) (requests : Requests)
      → IsApart taken
      → (f : UploadItem → UploadItem) × ((upload_all p text_of encode percent reports kb taken
            (items, n, requests)).0
          ≡ map f items)
        × ((x : UploadItem)
            → Fate
                (contains (item_ids taken) x.id)
                (answer_to (answers kb taken requests).0 x.id)
                x
                (f x))
  unfolding upload_all update_item turn
  upload_all-Fate kb [] items n requests h = (λ x. x, sym (map-id items), λ x. refl)
  upload_all-Fate kb (item ∷ taken) items n requests h =
      let step = upload_item-outcome p text_of encode percent reports kb item items n requests in
      let sent = sent_by p text_of encode percent reports kb item requests in
      let t = turn kb item requests in
      let alone : contains (item_ids taken) item.id ≡ false = ground arith in
      let (f, same, each) =
        upload_all-Fate kb taken (map t items) (counted p text_of encode percent reports sent.0 n)
          sent.1 (ground arith) in
      (
        λ x. f (t x),
        ap (λ s. (upload_all p text_of encode percent reports kb taken s).0) step
            ∙ same
            ∙ map-map f t items,
        λ x. turn-Fate kb item taken requests (answers kb taken sent.1).0 f x alone each,
      )
