-- ===== src/Uploads/Waiting.antt =====
-- frontend/src/components/upload/uploadPage.tsx: how many items the loop of `uploadFiles` uploads.
use agent_workflow_fast_api.Base.{
  ℕ, suc, ◌+◌, String, Bool, true, false, not, ◌&&◌, List, [], ◌∷◌, ◌≡◌, refl, sym, ap, ◌∙◌, subst,
  arith, ◌==◌, string_eq, number_eq, ==_iff, ==-refl, length, map-key, if◌then◌else◌, filter, any,
  contains, distinct, Result, ok, err, All, Bool-cases, inl, inr,
}
use agent_workflow_fast_api.Http.Message.{Response}
use agent_workflow_fast_api.Http.Client.Fetch.{Platform}
use agent_workflow_fast_api.Http.Requests.Backend.{Requests, RequestError, Body}
use agent_workflow_fast_api.Uploads.Page.{
  UploadItem, UploadItemStatus, is_ready, is_uploaded, uploaded, ready, uploading, failed,
  update_item, upload_all,
}
use agent_workflow_fast_api.Uploads.Identities.{
  item_ids, outcome, outcome-id, sent_by, counted, upload_item-outcome,
}
use agent_workflow_fast_api.Uploads.Settled.{IsApart, ready_items}

-- `uploadedCount` of the page

abbrev pub uploaded_total : List UploadItem → ℕ
uploaded_total items = length (filter (λ item. is_uploaded item.status) items)

abbrev waits : String → UploadItem → Bool
waits k item = item.id == k && not (is_uploaded item.status)

is_ready-fresh : (s : UploadItemStatus) → is_ready s ≡ true → is_uploaded s ≡ false
is_ready-fresh ready h = refl
is_ready-fresh uploading h = refl
is_ready-fresh uploaded h = cc
is_ready-fresh failed h = refl

no_waits :
    (k : String) (items : List UploadItem)
    → contains (item_ids items) k ≡ false
    → any (waits k) items ≡ false
no_waits k [] h = refl
no_waits k (x ∷ xs) h = ground (arith, no_waits k xs)

update_item_none :
    (k : String) (f : UploadItem → UploadItem) (items : List UploadItem)
    → contains (item_ids items) k ≡ false
    → update_item k f items ≡ items
unfolding update_item
update_item_none k f [] h = refl
update_item_none k f (x ∷ xs) h =
    let other : (x.id == k) ≡ false = ground arith in
    rw other (ap (◌∷◌ x) (update_item_none k f xs (ground arith)))

module _ (k : String) (f : UploadItem → UploadItem) (b : Bool)
    (same : (x : UploadItem) → (f x).id ≡ x.id)
    (ends : (x : UploadItem) → is_uploaded (f x).status ≡ b) where
  -- An item that waited counts one more if it is uploaded.
  uploaded_total-update_item :
      (items : List UploadItem)
      → IsApart items
      → any (waits k) items ≡ true
      → uploaded_total (update_item k f items)
        ≡ (if b then suc (uploaded_total items) else uploaded_total items)
  unfolding update_item
  uploaded_total-update_item [] h w = cc
  uploaded_total-update_item (x ∷ xs) h w = elim (Bool-cases (x.id == k)) [
    | inl e ↦
        let k_alone : contains (item_ids xs) k ≡ false = ground (arith, ==_iff x.id k) in
        let waiting : is_uploaded x.status ≡ false = ground (arith, no_waits k xs k_alone) in
        let stay = update_item_none k f xs k_alone in rw (e, waiting, ends x, stay) (ground arith)
    | inr e ↦
        let rest = uploaded_total-update_item xs (ground arith) (ground arith) in
        rw e (ground (arith, rest))
  ]

  waits-update_item :
      (j : String) (items : List UploadItem)
      → (k == j) ≡ false
      → any (waits j) (update_item k f items) ≡ any (waits j) items
  unfolding update_item
  waits-update_item j [] apart = refl
  waits-update_item j (x ∷ xs) apart = elim (Bool-cases (x.id == k)) [
    | inl e ↦
        let here : (x.id == j) ≡ false = ground (arith, ==_iff x.id k, ==_iff x.id j, ==_iff k j) in
        let there : ((f x).id == j) ≡ false = ap (λ i. i == j) (same x) ∙ here in
        rw (e, here, there) (waits-update_item j xs apart)
    | inr e ↦ rw e (ground (arith, waits-update_item j xs apart))
  ]

module _ (p : Platform) (text_of : Response → String) (encode : String → String)
    (percent : ℕ → ℕ → ℕ) (reports : UploadItem → List (ℕ × ℕ)) where
  answered_well : Result RequestError Body → Bool
  answered_well (ok body) = true
  answered_well (err e) = false

  outcome-status :
      (sent : Result RequestError Body) (rs : List (ℕ × ℕ)) (x : UploadItem)
      → is_uploaded (outcome p text_of encode percent reports sent rs x).status ≡ answered_well sent
  unfolding answered_well
  outcome-status (ok body) rs x = refl
  outcome-status (err e) rs x = refl

  counted_lem :
      (sent : Result RequestError Body) (n total : ℕ)
      → (if answered_well sent then suc total else total) + n
        ≡ total + counted p text_of encode percent reports sent n
  unfolding answered_well
  counted_lem (ok body) n total = omega arith
  counted_lem (err e) n total = refl

  -- The items that the loop takes wait among the others.
  abbrev pub Waiting : List UploadItem → List UploadItem → Type 0
  Waiting taken items = All (λ r. any (waits r.id) items ≡ true) taken

  Waiting-update_item :
      (k : String) (f : UploadItem → UploadItem) (b : Bool)
      (same : (x : UploadItem) → (f x).id ≡ x.id)
      (ends : (x : UploadItem) → is_uploaded (f x).status ≡ b) (items taken : List UploadItem)
      → contains (item_ids taken) k ≡ false
      → Waiting taken items
      → Waiting taken (update_item k f items)
  Waiting-update_item k f b same ends items [] h w = tt
  Waiting-update_item k f b same ends items (r ∷ rs) h w = (
    waits-update_item k f b same ends r.id items (ground (arith, ==_iff k r.id, ==_iff r.id k))
        ∙ w.0,
    Waiting-update_item k f b same ends items rs (ground arith) w.1,
  )

  update_item-ids :
      (k : String) (f : UploadItem → UploadItem) (items : List UploadItem)
      → ((x : UploadItem) → (f x).id ≡ x.id)
      → item_ids (update_item k f items) ≡ item_ids items
  unfolding update_item
  update_item-ids k f items same = map-key (λ x. x.id) (λ x. x.id == k) f items same

  tallies :
      (total c m n before next : ℕ)
      → total + m ≡ next + c
      → next + n ≡ before + m
      → total + n ≡ before + c
  tallies total c m n before next h k = omega arith

  pub upload_all-count :
      (kb : String) (taken items : List UploadItem) (n : ℕ) (requests : Requests)
      → IsApart items
      → IsApart taken
      → Waiting taken items
      → uploaded_total (upload_all p text_of encode percent reports kb taken (items, n, requests)).0
          + n
        ≡ uploaded_total items
          + (upload_all p text_of encode percent reports kb taken (items, n, requests)).1
  unfolding upload_all
  upload_all-count kb [] items n requests h t w = refl
  upload_all-count kb (item ∷ taken) items n requests h t w =
      let (sent, after) = sent_by p text_of encode percent reports kb item requests in
      let f = outcome p text_of encode percent reports sent (reports item) in
      let same = outcome-id p text_of encode percent reports sent (reports item) in
      let ends = outcome-status sent (reports item) in
      let b = answered_well sent in
      let next = update_item item.id f items in
      let m = counted p text_of encode percent reports sent n in
      let apart : IsApart next = ap distinct (update_item-ids item.id f items same) ∙ h in
      let rest =
        upload_all-count kb taken next m after apart (ground arith)
          (Waiting-update_item item.id f b same ends items taken (ground arith) w.1) in
      let one = uploaded_total-update_item item.id f b same ends items h w.0 in
      let tally = counted_lem sent n (uploaded_total items) in
      let step = upload_item-outcome p text_of encode percent reports kb item items n requests in
      subst
        (λ (state : List UploadItem × ℕ × Requests).
          uploaded_total (upload_all p text_of encode percent reports kb taken state).0 + n
          ≡ uploaded_total items + (upload_all p text_of encode percent reports kb taken state).1)
        (sym step)
        (tallies _ _ m n (uploaded_total items) (uploaded_total next) rest
          (ap (λ u. u + n) one ∙ tally))

  Waiting-cons :
      (y : UploadItem) (items taken : List UploadItem)
      → Waiting taken items
      → Waiting taken (y ∷ items)
  Waiting-cons y items [] w = tt
  Waiting-cons y items (r ∷ rs) w = (ground (arith, w.0), Waiting-cons y items rs w.1)

  pub ready_items-Waiting : (items : List UploadItem) → Waiting (ready_items items) items
  ready_items-Waiting [] = tt
  ready_items-Waiting (y ∷ ys) =
      let rest = Waiting-cons y ys (ready_items ys) (ready_items-Waiting ys) in
      elim (Bool-cases (is_ready y.status)) [
        | inl e ↦
            let whole : ready_items (y ∷ ys) ≡ y ∷ ready_items ys = rw e refl in
            let fresh = is_ready-fresh y.status e in
            subst (λ rs. Waiting rs (y ∷ ys)) (sym whole) (ground (arith, ==-refl y.id), rest)
        | inr e ↦
            let whole : ready_items (y ∷ ys) ≡ ready_items ys = rw e refl in
            subst (λ rs. Waiting rs (y ∷ ys)) (sym whole) rest
      ]
