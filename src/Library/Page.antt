-- ===== src/Library/Page.antt =====
-- frontend/src/components/upload/knowledgeFileLibrary.tsx: the state of the library and its handlers. A
-- load is begun in one turn and settles in a later one; what the backend answers is an argument.
use agent_workflow_fast_api.Base.{
  ℕ, String, Bool, true, false, not, ◌&&◌, List, [], map, Option, none, some, ◌==◌, string_eq,
  number_eq, if◌then◌else◌, filter, any, contains, set_add, set_delete, set_of, length, Result, ok,
  err,
}
use agent_workflow_fast_api.Library.Loads.{Loads, abort_current, begin_load, finish_load}

pub record StoredFile : Type 0 where
  pub file_id : String
  pub status : String

pub record ParsedDocument : Type 0 where
  pub file_id : String
  pub chunk_status : String

pub record DocumentsPage : Type 0 where
  pub items : List ParsedDocument
  pub offset : ℕ
  pub next_offset : Option ℕ

-- The error of a load: the status 409, or a text.
pub data LoadError : Type 0 where
  ingestion_disabled : LoadError
  load_failed : String → LoadError

pub data LibraryToast : Type 0 where
  parse_started parse_partial chunks_started chunks_partial : ℕ → LibraryToast
  parse_failed chunks_failed : LibraryToast

-- `requested_offset` is that of the newest load of the parsed documents; `toasts` has the newest first.
pub record LibraryPage : Type 0 where
  pub knowledge_base_id : String
  pub disabled : Bool
  pub files : List StoredFile
  pub is_files_open : Bool
  pub has_loaded_files : Bool
  pub selected_file_ids : List String
  pub file_loads : Loads
  pub error : Option LoadError
  pub parsed_documents : Option DocumentsPage
  pub is_parsed_documents_open : Bool
  pub has_loaded_parsed_documents : Bool
  pub parsed_documents_error : Option LoadError
  pub document_loads : Loads
  pub requested_offset : ℕ
  pub is_parsing : Bool
  pub is_generating_chunks : Bool
  pub toasts : List LibraryToast

unfoldable pub is_processing : String → Bool
is_processing status = status == "processing"

-- `loadFiles` up to its request, and what follows the answer to the request of a controller.
unfoldable pub load_files : LibraryPage → LibraryPage
load_files s =
    if s.knowledge_base_id == ""
    then record s { files = [] }
    else record s { file_loads = begin_load s.file_loads; error = none }

unfoldable pub files_answered : ℕ → Result LoadError (List StoredFile) → LibraryPage → LibraryPage
files_answered i (ok files) s = record s {
  files = files;
  has_loaded_files = true;
  file_loads = finish_load i s.file_loads;
}
files_answered i (err e) s =
    if contains s.file_loads.aborted i
    then record s { file_loads = finish_load i s.file_loads }
    else record s { error = some e; files = []; file_loads = finish_load i s.file_loads }

unfoldable pub load_parsed_documents : ℕ → LibraryPage → LibraryPage
load_parsed_documents offset s =
    if s.knowledge_base_id == "" then record s { parsed_documents = none } else record s {
      document_loads = begin_load s.document_loads;
      parsed_documents_error = none;
      requested_offset = offset;
    }

unfoldable pub documents_answered : ℕ → Result LoadError DocumentsPage → LibraryPage → LibraryPage
documents_answered i (ok page) s = record s {
  parsed_documents = some page;
  has_loaded_parsed_documents = true;
  document_loads = finish_load i s.document_loads;
}
documents_answered i (err e) s =
    if contains s.document_loads.aborted i
    then record s { document_loads = finish_load i s.document_loads }
    else record s {
      parsed_documents = none;
      parsed_documents_error = some e;
      document_loads = finish_load i s.document_loads;
    }

-- The effect of another knowledge base.
unfoldable pub on_knowledge_base : String → LibraryPage → LibraryPage
on_knowledge_base id s = record s {
  knowledge_base_id = id;
  files = [];
  has_loaded_files = false;
  is_files_open = false;
  parsed_documents = none;
  has_loaded_parsed_documents = false;
  is_parsed_documents_open = false;
  parsed_documents_error = none;
  selected_file_ids = [];
  file_loads = abort_current s.file_loads;
  document_loads = abort_current s.document_loads;
}

abbrev pub offset_of : Option DocumentsPage → ℕ
offset_of none = 0
offset_of (some page) = page.offset

-- Loads what is open, after a refresh and after files were started.
unfoldable pub reload_open : LibraryPage → LibraryPage
unfolding load_files load_parsed_documents
reload_open s =
    let with_files = if s.is_files_open then load_files s else s in
    if s.is_parsed_documents_open
    then load_parsed_documents (offset_of s.parsed_documents) with_files
    else with_files

-- The effect of another list of files.
unfoldable pub on_files : LibraryPage → LibraryPage
on_files s = record s {
  selected_file_ids =
      filter (λ id. contains (map (λ file. file.file_id) s.files) id) s.selected_file_ids;
}

unfoldable pub files_are_processing : LibraryPage → Bool
unfolding is_processing
files_are_processing s = any (λ file. is_processing file.status) s.files

abbrev pub items_of : Option DocumentsPage → List ParsedDocument
items_of none = []
items_of (some page) = page.items

unfoldable pub parsed_documents_are_processing : LibraryPage → Bool
unfolding is_processing
parsed_documents_are_processing s =
    any (λ document. is_processing document.chunk_status) (items_of s.parsed_documents)

-- The task of the poller.
unfoldable pub poll : LibraryPage → LibraryPage
unfolding load_files load_parsed_documents files_are_processing parsed_documents_are_processing
poll s =
    let with_files = if s.is_files_open && files_are_processing s then load_files s else s in
    if s.is_parsed_documents_open && parsed_documents_are_processing s
    then load_parsed_documents (offset_of s.parsed_documents) with_files
    else with_files

unfoldable pub toggle_files : LibraryPage → LibraryPage
unfolding load_files
toggle_files s =
    if s.is_files_open
    then record s { is_files_open = false }
    else if s.has_loaded_files
    then record s { is_files_open = true }
    else load_files (record s { is_files_open = true })

unfoldable pub toggle_parsed_documents : LibraryPage → LibraryPage
unfolding load_parsed_documents
toggle_parsed_documents s =
    if s.is_parsed_documents_open
    then record s { is_parsed_documents_open = false }
    else if s.has_loaded_parsed_documents
    then record s { is_parsed_documents_open = true }
    else load_parsed_documents 0 (record s { is_parsed_documents_open = true })

unfoldable pub selectable_files : LibraryPage → List StoredFile
unfolding is_processing
selectable_files s = filter (λ file. not (is_processing file.status)) s.files

unfoldable pub toggle_file : String → LibraryPage → LibraryPage
toggle_file id s = record s {
  selected_file_ids =
      if contains s.selected_file_ids id
      then set_delete s.selected_file_ids id
      else set_add s.selected_file_ids id;
}

unfoldable pub toggle_all : LibraryPage → LibraryPage
unfolding selectable_files
toggle_all s = record s {
  selected_file_ids =
      if length s.selected_file_ids == length (selectable_files s)
      then []
      else set_of (map (λ file. file.file_id) (selectable_files s));
}
