-- ===== src/Uploads/Identities.antt =====
-- frontend/src/components/upload/uploadPage.tsx: what an upload does to the items of its id.
use agent_workflow_fast_api.Base.{
  ℕ, suc, ◌≤◌, String, true, List, [], ◌∷◌, map, none, some, ◌≡◌, inl, inr, refl, ap, ◌∙◌, arith,
  ◌==◌, string_eq, number_eq, Result, ok, err, Bool-cases,
}
use agent_workflow_fast_api.Http.Message.{Response}
use agent_workflow_fast_api.Http.Client.Fetch.{Platform}
use agent_workflow_fast_api.Http.Requests.Backend.{
  Requests, RequestError, Body, request_backend_upload,
}
use agent_workflow_fast_api.Uploads.Page.{
  UploadItem, uploaded, failed, upload_failed, update_item, start_item, finish_item, fail_item,
  progress_of, report_progress, files_input, settle_item, upload_item,
}

abbrev pub item_ids : List UploadItem → List String
item_ids = map (λ item. item.id)

-- What becomes of an item by the answer to its request: it is uploaded in full, or it failed with the
-- error of the request, before its end.
abbrev pub Answered : Result RequestError Body → UploadItem → UploadItem → Type 0
Answered (ok body) before after =
    (after.id ≡ before.id)
    × (after.file ≡ before.file)
    × (after.status ≡ uploaded)
    × (after.progress ≡ 100)
    × (after.error_message ≡ none)
Answered (err e) before after =
    (after.id ≡ before.id)
    × (after.file ≡ before.file)
    × (after.status ≡ failed)
    × (after.progress ≤ 99)
    × (after.error_message ≡ some (upload_failed e))

update_item-update_item :
    (k : String) (f g : UploadItem → UploadItem) (items : List UploadItem)
    → ((x : UploadItem) → (f x).id ≡ x.id)
    → update_item k g (update_item k f items) ≡ update_item k (λ x. g (f x)) items
unfolding update_item
update_item-update_item k f g [] same = refl
update_item-update_item k f g (x ∷ xs) same = elim (Bool-cases (x.id == k)) [
  | inl e ↦
      let kept : ((f x).id == k) ≡ true = ap (λ i. i == k) (same x) ∙ e in
      rw (e, kept) (ap (◌∷◌ (g (f x))) (update_item-update_item k f g xs same))
  | inr e ↦ rw (e, e) (ap (◌∷◌ x) (update_item-update_item k f g xs same))
]

module _ (p : Platform) (text_of : Response → String) (encode : String → String)
    (percent : ℕ → ℕ → ℕ) (reports : UploadItem → List (ℕ × ℕ)) where
  -- The reports of progress on one item.
  abbrev reported : List (ℕ × ℕ) → UploadItem → UploadItem
  reported [] x = x
  reported ((loaded, total) ∷ rest) x =
      reported rest
        (record x { progress = progress_of p text_of encode percent reports loaded total })

  abbrev ended : Result RequestError Body → UploadItem → UploadItem
  ended (ok body) x = finish_item x
  ended (err e) x = fail_item e x

  abbrev pub outcome : Result RequestError Body → List (ℕ × ℕ) → UploadItem → UploadItem
  outcome sent rs x = ended sent (reported rs (start_item x))

  progress_of-le :
      (loaded total : ℕ) → progress_of p text_of encode percent reports loaded total ≤ 99
  unfolding progress_of
  progress_of-le loaded total = elim (Bool-cases (total == 0)) [
    | inl e ↦ rw e (omega arith)
    | inr e ↦ rw e (omega arith)
  ]

  reported-keeps :
      (rs : List (ℕ × ℕ)) (x : UploadItem)
      → ((reported rs x).id ≡ x.id)
        × ((reported rs x).file ≡ x.file)
        × ((reported rs x).error_message ≡ x.error_message)
  reported-keeps [] x = (refl, refl, refl)
  reported-keeps ((l, t) ∷ rs) x = reported-keeps rs _

  reported-le :
      (rs : List (ℕ × ℕ)) (x : UploadItem) → x.progress ≤ 99 → (reported rs x).progress ≤ 99
  reported-le [] x h = h
  reported-le ((l, t) ∷ rs) x h = reported-le rs _ (progress_of-le l t)

  pub outcome-id :
      (sent : Result RequestError Body) (rs : List (ℕ × ℕ)) (x : UploadItem)
      → (outcome sent rs x).id ≡ x.id
  outcome-id (ok body) rs x = (reported-keeps rs (start_item x)).0
  outcome-id (err e) rs x = (reported-keeps rs (start_item x)).0

  pub outcome-Answered :
      (sent : Result RequestError Body) (rs : List (ℕ × ℕ)) (x : UploadItem)
      → Answered sent x (outcome sent rs x)
  outcome-Answered (ok body) rs x =
      let (i, f, m) = reported-keeps rs (start_item x) in (i, f, refl, refl, m)
  outcome-Answered (err e) rs x =
      let (i, f, m) = reported-keeps rs (start_item x) in
      (i, f, refl, reported-le rs (start_item x) (omega arith), refl)

  report_progress-reported :
      (k : String) (rs : List (ℕ × ℕ)) (f : UploadItem → UploadItem) (items : List UploadItem)
      → ((x : UploadItem) → (f x).id ≡ x.id)
      → report_progress p text_of encode percent reports k rs (update_item k f items)
        ≡ update_item k (λ x. reported rs (f x)) items
  unfolding report_progress
  report_progress-reported k [] f items same = refl
  report_progress-reported k ((l, t) ∷ rs) f items same =
      ap (report_progress p text_of encode percent reports k rs) (
        update_item-update_item k f
          (λ x. record x { progress = progress_of p text_of encode percent reports l t }) items
          same)
      ∙ report_progress-reported k rs _ items same

  abbrev pub sent_by : String → UploadItem → Requests → Result RequestError Body × Requests
  sent_by kb item requests =
      request_backend_upload p text_of (files_input p text_of encode percent reports kb)
        (("file", item.file.name) ∷ []) requests

  abbrev pub counted : Result RequestError Body → ℕ → ℕ
  counted (ok body) n = suc n
  counted (err e) n = n

  -- One turn of the loop changes the items of the id, all in one way.
  pub upload_item-outcome :
      (kb : String) (item : UploadItem) (items : List UploadItem) (n : ℕ) (requests : Requests)
      → upload_item p text_of encode percent reports kb item (items, n, requests) ≡ (
        update_item item.id (outcome (sent_by kb item requests).0 (reports item)) items,
        counted (sent_by kb item requests).0 n,
        (sent_by kb item requests).1,
      )
  unfolding upload_item
  upload_item-outcome kb item items n requests = by_answer (sent_by kb item requests)
    where
      moved :
          report_progress p text_of encode percent reports item.id
            (reports item)
            (update_item item.id start_item items)
          ≡ update_item item.id (λ x. reported (reports item) (start_item x)) items
      moved = report_progress-reported item.id (reports item) start_item items (λ x. refl)

      before : List UploadItem
      before =
          report_progress p text_of encode percent reports item.id (reports item)
            (update_item item.id start_item items)

      by_answer :
          (sent : Result RequestError Body × Requests)
          → ◌≡◌ {A = List UploadItem × ℕ × Requests}
              (
                (settle_item p text_of encode percent reports item.id sent.0 before n).0,
                (settle_item p text_of encode percent reports item.id sent.0 before n).1,
                sent.1,
              )
              (update_item item.id (outcome sent.0 (reports item)) items, counted sent.0 n, sent.1)
      by_answer (ok body, r) = rw moved (
          ap (λ l. (l, suc n, r))
            (update_item-update_item item.id _ finish_item items
              (λ x. (reported-keeps (reports item) (start_item x)).0)))
      by_answer (err e, r) = rw moved (
          ap (λ l. (l, n, r))
            (update_item-update_item item.id _ (fail_item e) items
              (λ x. (reported-keeps (reports item) (start_item x)).0)))
