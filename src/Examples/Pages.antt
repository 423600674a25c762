-- ===== src/Examples/Pages.antt =====
-- A list of chats with one to delete, and an upload page with two files to upload.
use agent_workflow_fast_api.Base.{
  ℕ, String, true, false, List, [], ◌∷◌, none, some, refl, string_eq, number_eq,
}
use agent_workflow_fast_api.Http.Message.{Response}
use agent_workflow_fast_api.Http.Requests.Backend.{Requests, request_backend}
use agent_workflow_fast_api.ChatHistory.Cache.{ChatHistoryEntry}
use agent_workflow_fast_api.ChatHistory.Sidebar.{Sidebar, delete_input, delete_init, handle_delete}
use agent_workflow_fast_api.ChatHistory.Deletion.{IsDeleted, handle_delete-IsDeleted}
use agent_workflow_fast_api.Uploads.Page.{
  UploadItem, UploadItemStatus, ready, uploaded, UploadPage, upload_files,
}
use agent_workflow_fast_api.Uploads.Settled.{IsApart}
use agent_workflow_fast_api.Uploads.Counts.{IsUpload, upload_files-IsUpload}
use agent_workflow_fast_api.Uploads.Runs.{
  PageCall, adds, removes, clears, uploads, perform_all, page_calls-IsApart,
}
use agent_workflow_fast_api.Examples.Browser.{browser, fresh}

abbrev requests : Requests
requests = record { client = fresh; has_handler = true; failures = [] }

abbrev no_text : Response → String
no_text r = ""

abbrev entry : String → ChatHistoryEntry
entry id = record {
  created_at = "2025-01-01";
  id = id;
  title = "New chat";
  user_id = some "ann";
  visibility = "private";
  workspace_id = none;
}

abbrev sidebar : Sidebar
sidebar = record {
  client = record {
    local_chats = λ key. some (entry "c1" ∷ []);
    history = λ key. some (record {
      pages = record { chats = entry "c2" ∷ entry "c1" ∷ []; has_more = false } ∷ [];
      page_params = none ∷ [];
    });
  };
  requests = requests;
  pathname = "/chat/c1";
  delete_id = some "c1";
  is_deleting = false;
  show_delete_dialog = true;
  toasts = [];
}

handle_delete-IsDeleted_example :
    IsDeleted
      ("k" ∷ [])
      "c1"
      (request_backend browser no_text false
        (delete_input browser no_text "" ("k" ∷ []) "c1")
        delete_init
        requests)
      sidebar
      (handle_delete browser no_text "" ("k" ∷ []) false sidebar)
handle_delete-IsDeleted_example =
    handle_delete-IsDeleted browser no_text "" ("k" ∷ []) false "c1" sidebar refl refl

abbrev item : String → UploadItemStatus → UploadItem
item id status = record {
  error_message = none;
  id = id;
  file = record { name = id; size = 10; last_modified = 1 };
  progress = 0;
  status = status;
}

abbrev page : UploadPage
page = record {
  items = item "a.pdf" ready ∷ item "b.md" uploaded ∷ item "c.txt" ready ∷ [];
  selected_knowledge_base_id = "kb1";
  is_uploading = false;
  stored_files_refresh_key = 0;
  load_error = none;
  toasts = [];
  requests = requests;
}

abbrev halves : UploadItem → List (ℕ × ℕ)
halves x = (5, 10) ∷ (10, 10) ∷ []

abbrev percent : ℕ → ℕ → ℕ
percent loaded total = 50

abbrev as_is : String → String
as_is s = s

upload_files-IsUpload_example :
    IsUpload browser no_text as_is percent halves page
      (upload_files browser no_text as_is percent halves page)
upload_files-IsUpload_example =
    upload_files-IsUpload browser no_text as_is percent halves page (item "a.pdf" ready)
      (item "c.txt" ready ∷ []) refl refl refl refl

abbrev decimal : ℕ → String
decimal n = "1"

abbrev clicks : List PageCall
clicks =
    adds (record { name = "d.csv"; size = 3; last_modified = 2 } ∷ [])
    ∷ uploads
    ∷ removes "a.pdf"
    ∷ clears
    ∷ []

page_calls-IsApart_example :
    IsApart (perform_all as_is decimal browser no_text as_is percent halves clicks page).items
page_calls-IsApart_example =
    page_calls-IsApart as_is decimal browser no_text as_is percent halves clicks page refl
