-- ===== src/Uploads/Counts.antt =====
-- frontend/src/components/upload/uploadPage.tsx: all that `uploadFiles` leaves behind.
use agent_workflow_fast_api.Base.{
  ℕ, suc, ◌+◌, String, false, ◌||◌, List, [], ◌∷◌, map, ◌≡◌, refl, sym, ap, ◌∙◌, subst, arith, ◌==◌,
  string_eq, number_eq, ltb, length, if◌then◌else◌, contains, distinct, distinct-filter, All,
}
use agent_workflow_fast_api.Http.Message.{Response}
use agent_workflow_fast_api.Http.Client.Fetch.{Platform}
use agent_workflow_fast_api.Http.Requests.Backend.{Requests}
use agent_workflow_fast_api.Uploads.Page.{
  UploadItem, UploadPage, is_ready, upload_all, toast_of, upload_ready, upload_files,
}
use agent_workflow_fast_api.Uploads.Identities.{item_ids}
use agent_workflow_fast_api.Uploads.Settled.{
  IsApart, Chosen, All-map2, ready_items, ready_items-ids,
}
use agent_workflow_fast_api.Uploads.Answers.{
  Answers, answer_to, answered_well, Fate, Fate-id, answers, answers-ids, upload_all-answers,
  upload_all-Fate,
}
use agent_workflow_fast_api.Uploads.Waiting.{
  uploaded_total, Waiting, upload_all-count, ready_items-Waiting,
}

module _ (p : Platform) (text_of : Response → String) (encode : String → String)
    (percent : ℕ → ℕ → ℕ) (reports : UploadItem → List (ℕ × ℕ)) where
  -- The answers to the requests of `uploadFiles`, one for each item that is ready.
  abbrev pub got : UploadPage → Answers × Requests
  got page =
      answers p text_of encode percent reports page.selected_knowledge_base_id
        (ready_items page.items) page.requests

  -- What `uploadFiles` leaves behind, if there is something to upload.
  pub record IsUpload (before after : UploadPage) : Type 0 where
    pub change : UploadItem → UploadItem
    pub items : after.items ≡ map change before.items
    pub asked : map (λ a. a.0) (got before).0 ≡ item_ids (ready_items before.items)
    pub fates :
        All
          (λ item.
            Fate (is_ready item.status) (answer_to (got before).0 item.id) item (change item))
          before.items
    pub apart : IsApart after.items
    pub idle : after.is_uploading ≡ false
    pub requests : after.requests ≡ (got before).1
    pub count : ℕ
    pub count_well : count ≡ answered_well (got before).0
    pub uploads : uploaded_total after.items ≡ uploaded_total before.items + count
    pub refresh : after.stored_files_refresh_key ≡ (
        if ltb 0 count
        then suc before.stored_files_refresh_key
        else before.stored_files_refresh_key)
    pub toasts :
        after.toasts
        ≡ toast_of p text_of encode percent reports count (length (ready_items before.items))
          ∷ before.toasts

  map-change-ids :
      (change : UploadItem → UploadItem) (found : Answers) (items : List UploadItem)
      → All (λ item. Fate (is_ready item.status) (answer_to found item.id) item (change item)) items
      → item_ids (map change items) ≡ item_ids items
  map-change-ids change found [] h = refl
  map-change-ids change found (x ∷ xs) h = simp (
    Fate-id (is_ready x.status) (answer_to found x.id) x (change x) h.0,
    map-change-ids change found xs h.1,
  )

  pub upload_ready-IsUpload :
      (page : UploadPage) (item : UploadItem) (rest : List UploadItem)
      → ready_items page.items ≡ item ∷ rest
      → IsApart page.items
      → IsUpload page (upload_ready p text_of encode percent reports (item ∷ rest) page)
  upload_ready-IsUpload page item rest found h =
      let kb = page.selected_knowledge_base_id in
      let taken = item ∷ rest in
      let end =
        upload_all p text_of encode percent reports kb taken (page.items, 0, page.requests) in
      let all = got page in
      let whole : answers p text_of encode percent reports kb taken page.requests ≡ all =
        ap (λ rs. answers p text_of encode percent reports kb rs page.requests) (sym found) in
      let alone : IsApart taken =
        subst IsApart found (distinct-filter (λ x. x.id) (λ x. is_ready x.status) page.items h) in
      let (f, same, each) =
        upload_all-Fate p text_of encode percent reports kb taken page.items 0 page.requests
          alone in
      let (number, sent) =
        upload_all-answers p text_of encode percent reports kb taken page.items 0 page.requests in
      let chosen : Chosen page.items taken =
        subst (Chosen page.items) found (ready_items-ids page.items h) in
      let fates : All (λ x. Fate (is_ready x.status) (answer_to all.0 x.id) x (f x)) page.items =
        All-map2 page.items
          (λ x (e : contains (item_ids taken) x.id ≡ is_ready x.status) (u : Unit {0}).
            subst
              (λ (a : Answers × Requests). Fate (is_ready x.status) (answer_to a.0 x.id) x (f x))
              whole
              (subst
                (λ b.
                  Fate b
                    (answer_to (answers p text_of encode percent reports kb taken page.requests).0
                      x.id)
                    x (f x))
                e (each x)))
          chosen (all_units page.items) in
      let total =
        upload_all-count p text_of encode percent reports kb taken page.items 0 page.requests h
          alone
          (subst (λ rs. Waiting p text_of encode percent reports rs page.items) found
            (ready_items-Waiting p text_of encode percent reports page.items)) in
      record {
        change = f;
        items = same;
        asked =
            answers-ids p text_of encode percent reports kb (ready_items page.items) page.requests;
        fates = fates;
        apart = ap distinct (ap item_ids same ∙ map-change-ids f all.0 page.items fates) ∙ h;
        idle = refl;
        requests = sent ∙ ap (λ a. a.1) whole;
        count = end.1;
        count_well =
            from_zero _ _ number ∙ ap (λ (a : Answers × Requests). answered_well a.0) whole;
        uploads = plain _ _ total;
        refresh = refl;
        toasts = rw found refl;
      }
    where
      all_units : (items : List UploadItem) → All (λ x. Unit {0}) items
      all_units [] = tt
      all_units (x ∷ xs) = (tt, all_units xs)

      from_zero : (a b : ℕ) → a ≡ 0 + b → a ≡ b
      from_zero a b h = omega arith

      plain : (a b : ℕ) → a + 0 ≡ b → a ≡ b
      plain a b h = omega arith

-- If the ids of the items are apart, a knowledge base is chosen, no upload is under way and some item
-- is ready, then `uploadFiles` sends one request for each item that is ready, in their order, and no
-- other; afterwards each of them is uploaded in full if its request was answered well, and has failed
-- with the error of its request otherwise; the others are as they were, the ids are apart, the number of
-- uploaded items has grown by the number of requests that were answered well, by which the toast and the
-- refresh of the stored files go, and no upload is under way.
pub upload_files-IsUpload :
    (p : Platform) (text_of : Response → String) (encode : String → String) (percent : ℕ → ℕ → ℕ)
    (reports : UploadItem → List (ℕ × ℕ)) (page : UploadPage) (item : UploadItem)
    (rest : List UploadItem)
    → IsApart page.items
    → (page.selected_knowledge_base_id == "") ≡ false
    → page.is_uploading ≡ false
    → ready_items page.items ≡ item ∷ rest
    → IsUpload p text_of encode percent reports page
        (upload_files p text_of encode percent reports page)
unfolding upload_files
upload_files-IsUpload p text_of encode percent reports page item rest h chosen free found =
    let go = upload_ready p text_of encode percent reports in
    let guard : (page.selected_knowledge_base_id == "" || page.is_uploading) ≡ false =
      ground arith in
    subst
      (λ b.
        IsUpload p text_of encode percent reports page
          (if b then page else go (ready_items page.items) page))
      (sym guard)
      (subst (λ rs. IsUpload p text_of encode percent reports page (go rs page)) (sym found)
        (upload_ready-IsUpload p text_of encode percent reports page item rest found h))
