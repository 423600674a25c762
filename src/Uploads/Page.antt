-- ===== src/Uploads/Page.antt =====
-- frontend/src/components/upload/uploadPage.tsx: the items of the upload page and the handlers on them.
-- How a number is written and rounded, `toLowerCase`, `encodeURIComponent` and the reports of progress
-- during an upload are parameters. The handlers run one after the other.
use Prim.Native.Char.{Char, code}
use Prim.Native.String
use agent_workflow_fast_api.Base.{
  ℕ, suc, min, String, Bool, true, false, not, ◌||◌, List, [], ◌∷◌, ◌++◌, map, Option, none, some,
  ◌==◌, string_eq, number_eq, ltb, if◌then◌else◌, filter, any, length, contains, Result, ok, err,
}
use agent_workflow_fast_api.Http.Message.{Response, Input, url}
use agent_workflow_fast_api.Http.Client.Fetch.{Platform}
use agent_workflow_fast_api.Http.Requests.Backend.{
  Requests, RequestError, Body, request_backend_upload,
}

pub record File : Type 0 where
  pub name : String
  pub size : ℕ
  pub last_modified : ℕ

pub data UploadItemStatus : Type 0 where
  ready uploading uploaded failed : UploadItemStatus

pub data ItemError : Type 0 where
  unsupported_type : String → ItemError
  upload_failed : RequestError → ItemError

pub record UploadItem : Type 0 where
  pub error_message : Option ItemError
  pub id : String
  pub file : File
  pub progress : ℕ
  pub status : UploadItemStatus

abbrev pub is_ready : UploadItemStatus → Bool
is_ready ready = true
is_ready _ = false

abbrev pub is_uploaded : UploadItemStatus → Bool
is_uploaded uploaded = true
is_uploaded _ = false

pub data UploadToast : Type 0 where
  all_uploaded some_uploaded none_uploaded : UploadToast

-- `toasts` has the newest first.
pub record UploadPage : Type 0 where
  pub items : List UploadItem
  pub selected_knowledge_base_id : String
  pub is_uploading : Bool
  pub stored_files_refresh_key : ℕ
  pub load_error : Option String
  pub toasts : List UploadToast
  pub requests : Requests

abbrev pub accepted_extensions : List String
accepted_extensions = ".xlsx" ∷ ".csv" ∷ ".json" ∷ ".md" ∷ ".txt" ∷ ".pdf" ∷ ".ppt" ∷ ".pptx" ∷ []

abbrev pub dot_here : Char → String → Option String → Option String
dot_here c s (some t) = some t
dot_here c s none = if code c == b'.' then some (String.◌∷◌ c s) else none

-- The end of a name from its last dot.
unfoldable pub from_last_dot : String → Option String
from_last_dot String.[] = none
from_last_dot (String.◌∷◌ c s) = dot_here c s (from_last_dot s)

-- `slice(-1)`
abbrev pub last_character : String → String
last_character String.[] = ""
last_character (String.◌∷◌ c String.[]) = String.◌∷◌ c ""
last_character (String.◌∷◌ c (String.◌∷◌ d s)) = last_character (String.◌∷◌ d s)

-- `fileName.slice(fileName.lastIndexOf("."))`: the position is -1 where there is no dot.
unfoldable pub sliced_extension : String → String
sliced_extension name = elim (from_last_dot name) [ none ↦ last_character name | some t ↦ t ]

module _ (lower : String → String) (decimal : ℕ → String) where
  unfoldable pub file_extension : String → String
  file_extension file_name =
      let extension = lower (sliced_extension file_name) in
      if extension == file_name then "" else extension

  unfoldable pub is_accepted_file : File → Bool
  is_accepted_file file = contains accepted_extensions (file_extension file.name)

  unfoldable pub upload_item_id : File → String
  upload_item_id file = String.◌++◌ file.name (
      String.◌++◌ "-"
        (String.◌++◌ (decimal file.size) (String.◌++◌ "-" (decimal file.last_modified))))

  unfoldable pub new_item : File → UploadItem
  new_item file =
      if is_accepted_file file
      then record {
        error_message = none;
        id = upload_item_id file;
        file = file;
        progress = 0;
        status = ready;
      }
      else record {
        error_message = some (unsupported_type file.name);
        id = upload_item_id file;
        file = file;
        progress = 0;
        status = failed;
      }

  -- The loop over the files, with `nextItems` so far.
  unfoldable pub next_items : List String → List UploadItem → List File → List UploadItem
  next_items existing_ids next [] = next
  next_items existing_ids next (file ∷ files) =
      next_items existing_ids
        (if contains existing_ids (upload_item_id file)
            || any (λ item. item.id == upload_item_id file) next
          then next
          else next ++ (new_item file ∷ []))
        files

  unfoldable pub add_files : List File → UploadPage → UploadPage
  add_files incoming_files page = record page {
    items = page.items ++ next_items (map (λ item. item.id) page.items) [] incoming_files;
  }

unfoldable pub remove_item : String → UploadPage → UploadPage
remove_item id page = record page { items = filter (λ item. not (item.id == id)) page.items }

unfoldable pub clear_uploaded : UploadPage → UploadPage
clear_uploaded page = record page {
  items = filter (λ item. not (is_uploaded item.status)) page.items;
}

-- `setItems` with a change of the items of an id.
unfoldable pub update_item : String → (UploadItem → UploadItem) → List UploadItem → List UploadItem
update_item id f items = map (λ item. if item.id == id then f item else item) items

abbrev pub start_item : UploadItem → UploadItem
start_item item = record item { error_message = none; progress = 0; status = uploading }

abbrev pub finish_item : UploadItem → UploadItem
finish_item item = record item { progress = 100; status = uploaded }

abbrev pub fail_item : RequestError → UploadItem → UploadItem
fail_item e item = record item { error_message = some (upload_failed e); status = failed }

module _ (p : Platform) (text_of : Response → String) (encode : String → String)
    (percent : ℕ → ℕ → ℕ) (reports : UploadItem → List (ℕ × ℕ)) where
  -- `total ? Math.min(99, Math.round((loaded / total) * 100)) : 0`
  unfoldable pub progress_of : ℕ → ℕ → ℕ
  progress_of loaded total = if total == 0 then 0 else min 99 (percent loaded total)

  unfoldable pub report_progress : String → List (ℕ × ℕ) → List UploadItem → List UploadItem
  report_progress id [] items = items
  report_progress id ((loaded, total) ∷ rest) items =
      report_progress id rest
        (update_item id (λ item. record item { progress = progress_of loaded total }) items)

  abbrev pub files_input : String → Input
  files_input knowledge_base_id = url (record {
    pathname =
        String.◌++◌ "/api/knowledge-bases/" (String.◌++◌ (encode knowledge_base_id) "/files");
    query = [];
  })

  abbrev pub settle_item :
      String → Result RequestError Body → List UploadItem → ℕ → List UploadItem × ℕ
  settle_item id (ok body) items uploaded_count =
      (update_item id finish_item items, suc uploaded_count)
  settle_item id (err e) items uploaded_count = (update_item id (fail_item e) items, uploaded_count)

  -- One turn of the loop: the items, the count of uploads and the requests after it.
  unfoldable pub upload_item :
      String → UploadItem → List UploadItem × ℕ × Requests → List UploadItem × ℕ × Requests
  upload_item knowledge_base_id item (items, uploaded_count, requests) =
      let sent =
        request_backend_upload p text_of (files_input knowledge_base_id)
          (("file", item.file.name) ∷ []) requests in
      let started = update_item item.id start_item items in
      let settled =
        settle_item item.id sent.0 (report_progress item.id (reports item) started)
          uploaded_count in
      (settled.0, settled.1, sent.1)

  unfoldable pub upload_all :
      String → List UploadItem → List UploadItem × ℕ × Requests → List UploadItem × ℕ × Requests
  upload_all knowledge_base_id [] state = state
  upload_all knowledge_base_id (item ∷ items) state =
      upload_all knowledge_base_id items (upload_item knowledge_base_id item state)

  abbrev pub toast_of : ℕ → ℕ → UploadToast
  toast_of uploaded_count total =
      if uploaded_count == total
      then all_uploaded
      else if ltb 0 uploaded_count
      then some_uploaded
      else none_uploaded

  abbrev pub upload_ready : List UploadItem → UploadPage → UploadPage
  upload_ready [] page = page
  upload_ready (item ∷ items) page =
      let after =
        upload_all page.selected_knowledge_base_id (item ∷ items) (page.items, 0, page.requests) in
      record page {
        items = after.0;
        is_uploading = false;
        stored_files_refresh_key =
            if ltb 0 after.1
            then suc page.stored_files_refresh_key
            else page.stored_files_refresh_key;
        load_error = none;
        toasts = toast_of after.1 (length (item ∷ items)) ∷ page.toasts;
        requests = after.2;
      }

  unfoldable pub upload_files : UploadPage → UploadPage
  upload_files page =
      if page.selected_knowledge_base_id == "" || page.is_uploading
      then page
      else upload_ready (filter (λ item. is_ready item.status) page.items) page
