-- ===== src/Uploads/Runs.antt =====
-- frontend/src/components/upload/uploadPage.tsx: any calls of the handlers, one after the other.
use agent_workflow_fast_api.Base.{
  ℕ, String, ◌||◌, List, [], ◌∷◌, ◌≡◌, refl, ◌==◌, string_eq, Bool-cases, inl, inr,
}
use agent_workflow_fast_api.Http.Message.{Response}
use agent_workflow_fast_api.Http.Client.Fetch.{Platform}
use agent_workflow_fast_api.Uploads.Page.{
  File, UploadItem, UploadPage, add_files, remove_item, clear_uploaded, upload_ready, upload_files,
}
use agent_workflow_fast_api.Uploads.Settled.{
  IsApart, ready_items, add_files-IsApart, remove_item-IsApart, clear_uploaded-IsApart,
}
use agent_workflow_fast_api.Uploads.Counts.{upload_ready-IsUpload}

-- What a user does.
pub data PageCall : Type 0 where
  adds : List File → PageCall
  removes : String → PageCall
  clears uploads : PageCall

module _ (lower : String → String) (decimal : ℕ → String) (p : Platform)
    (text_of : Response → String) (encode : String → String) (percent : ℕ → ℕ → ℕ)
    (reports : UploadItem → List (ℕ × ℕ)) where
  abbrev pub perform : PageCall → UploadPage → UploadPage
  perform (adds files) page = add_files lower decimal files page
  perform (removes id) page = remove_item id page
  perform clears page = clear_uploaded page
  perform uploads page = upload_files p text_of encode percent reports page

  abbrev pub perform_all : List PageCall → UploadPage → UploadPage
  perform_all [] page = page
  perform_all (c ∷ cs) page = perform_all cs (perform c page)

  upload_ready-IsApart :
      (page : UploadPage) (taken : List UploadItem)
      → ready_items page.items ≡ taken
      → IsApart page.items
      → IsApart (upload_ready p text_of encode percent reports taken page).items
  upload_ready-IsApart page [] found h = h
  upload_ready-IsApart page (item ∷ rest) found h =
      (upload_ready-IsUpload p text_of encode percent reports page item rest found h).apart

  upload_files-IsApart :
      (page : UploadPage)
      → IsApart page.items
      → IsApart (upload_files p text_of encode percent reports page).items
  unfolding upload_files
  upload_files-IsApart page h =
      elim (Bool-cases (page.selected_knowledge_base_id == "" || page.is_uploading)) [
        | inl e ↦ rw e h
        | inr e ↦ rw e (upload_ready-IsApart page (ready_items page.items) refl h)
      ]

  perform-IsApart :
      (c : PageCall) (page : UploadPage) → IsApart page.items → IsApart (perform c page).items
  perform-IsApart (adds files) page h = add_files-IsApart lower decimal files page h
  perform-IsApart (removes id) page h = remove_item-IsApart id page h
  perform-IsApart clears page h = clear_uploaded-IsApart page h
  perform-IsApart uploads page h = upload_files-IsApart page h

  -- Whatever a user does, one call after the other, no two items of the page come to have one id, if none
  -- had at the start.
  pub page_calls-IsApart :
      (calls : List PageCall) (page : UploadPage)
      → IsApart page.items
      → IsApart (perform_all calls page).items
  page_calls-IsApart [] page h = h
  page_calls-IsApart (c ∷ cs) page h =
      page_calls-IsApart cs (perform c page) (perform-IsApart c page h)
