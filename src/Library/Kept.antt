-- ===== src/Library/Kept.antt =====
-- frontend/src/components/upload/knowledgeFileLibrary.tsx: what the handlers of the library do to the
-- controllers of its loads.
use agent_workflow_fast_api.Base.{
  ℕ, String, Bool, true, false, ◌&&◌, ◌||◌, List, [], ◌∷◌, none, ◌==◌, string_eq, number_eq,
  if◌then◌else◌, contains, length, set_of, Result, ok, err, Bool-cases, inl, inr,
}
use agent_workflow_fast_api.Library.Page.{
  StoredFile, DocumentsPage, LoadError, LibraryPage, load_files, files_answered,
  load_parsed_documents, documents_answered, offset_of, reload_open, poll, toggle_files,
  toggle_parsed_documents, files_are_processing, parsed_documents_are_processing,
}
use agent_workflow_fast_api.Library.Started.{
  parse_answered, parse_each, parse_selected_files, chunks_answered, chunks_each,
  generate_chunks_for_files, told, parse_toast, chunks_toast,
}
use agent_workflow_fast_api.Library.OneLoad.{IsOneLoad, begin_load-IsOneLoad, finish_load-IsOneLoad}

-- Both kinds of loads of the page.
abbrev pub IsLoadedOnce : LibraryPage → Type 0
IsLoadedOnce s = IsOneLoad s.file_loads × IsOneLoad s.document_loads

pub load_files-IsLoadedOnce : (s : LibraryPage) → IsLoadedOnce s → IsLoadedOnce (load_files s)
unfolding load_files
load_files-IsLoadedOnce s h = elim (Bool-cases (s.knowledge_base_id == "")) [
  | inl e ↦ rw e h
  | inr e ↦ rw e (begin_load-IsOneLoad s.file_loads h.0, h.1)
]

pub load_parsed_documents-IsLoadedOnce :
    (offset : ℕ) (s : LibraryPage) → IsLoadedOnce s → IsLoadedOnce (load_parsed_documents offset s)
unfolding load_parsed_documents
load_parsed_documents-IsLoadedOnce offset s h = elim (Bool-cases (s.knowledge_base_id == "")) [
  | inl e ↦ rw e h
  | inr e ↦ rw e (h.0, begin_load-IsOneLoad s.document_loads h.1)
]

pub files_answered-IsLoadedOnce :
    (i : ℕ) (r : Result LoadError (List StoredFile)) (s : LibraryPage)
    → IsLoadedOnce s
    → IsLoadedOnce (files_answered i r s)
unfolding files_answered
files_answered-IsLoadedOnce i (ok files) s h = (finish_load-IsOneLoad i s.file_loads h.0, h.1)
files_answered-IsLoadedOnce i (err e) s h = elim (Bool-cases (contains s.file_loads.aborted i)) [
  | inl a ↦ rw a (finish_load-IsOneLoad i s.file_loads h.0, h.1)
  | inr a ↦ rw a (finish_load-IsOneLoad i s.file_loads h.0, h.1)
]

pub documents_answered-IsLoadedOnce :
    (i : ℕ) (r : Result LoadError DocumentsPage) (s : LibraryPage)
    → IsLoadedOnce s
    → IsLoadedOnce (documents_answered i r s)
unfolding documents_answered
documents_answered-IsLoadedOnce i (ok page) s h =
    (h.0, finish_load-IsOneLoad i s.document_loads h.1)
documents_answered-IsLoadedOnce i (err e) s h =
    elim (Bool-cases (contains s.document_loads.aborted i)) [
      | inl a ↦ rw a (h.0, finish_load-IsOneLoad i s.document_loads h.1)
      | inr a ↦ rw a (h.0, finish_load-IsOneLoad i s.document_loads h.1)
    ]

kept_if :
    (b : Bool) (x y : LibraryPage)
    → IsLoadedOnce x
    → IsLoadedOnce y
    → IsLoadedOnce (if b then x else y)
kept_if true x y h k = h
kept_if false x y h k = k

-- Loads under conditions, the files' first.
kept_loads :
    (b c : Bool) (offset : ℕ) (s : LibraryPage)
    → IsLoadedOnce s
    → IsLoadedOnce (
        if c
        then load_parsed_documents offset (if b then load_files s else s)
        else if b
        then load_files s
        else s)
kept_loads b c offset s h =
    let first = if b then load_files s else s in
    let kept = kept_if b (load_files s) s (load_files-IsLoadedOnce s h) h in
    kept_if c (load_parsed_documents offset first) first
      (load_parsed_documents-IsLoadedOnce offset first kept) kept

pub reload_open-IsLoadedOnce : (s : LibraryPage) → IsLoadedOnce s → IsLoadedOnce (reload_open s)
unfolding reload_open
reload_open-IsLoadedOnce s h =
    kept_loads s.is_files_open s.is_parsed_documents_open (offset_of s.parsed_documents) s h

pub poll-IsLoadedOnce : (s : LibraryPage) → IsLoadedOnce s → IsLoadedOnce (poll s)
unfolding poll
poll-IsLoadedOnce s h =
    kept_loads (s.is_files_open && files_are_processing s)
      (s.is_parsed_documents_open && parsed_documents_are_processing s)
      (offset_of s.parsed_documents) s h

pub toggle_files-IsLoadedOnce : (s : LibraryPage) → IsLoadedOnce s → IsLoadedOnce (toggle_files s)
unfolding toggle_files
toggle_files-IsLoadedOnce s h =
    let opened = record s { is_files_open = true } in
    kept_if s.is_files_open (record s { is_files_open = false })
      (if s.has_loaded_files then opened else load_files opened) h
      (kept_if s.has_loaded_files opened (load_files opened) h (load_files-IsLoadedOnce opened h))

pub toggle_parsed_documents-IsLoadedOnce :
    (s : LibraryPage) → IsLoadedOnce s → IsLoadedOnce (toggle_parsed_documents s)
unfolding toggle_parsed_documents
toggle_parsed_documents-IsLoadedOnce s h =
    let opened = record s { is_parsed_documents_open = true } in
    kept_if s.is_parsed_documents_open (record s { is_parsed_documents_open = false })
      (if s.has_loaded_parsed_documents then opened else load_parsed_documents 0 opened) h
      (kept_if s.has_loaded_parsed_documents opened (load_parsed_documents 0 opened) h
        (load_parsed_documents-IsLoadedOnce 0 opened h))

pub parse_answered-IsLoadedOnce :
    (id : String) (r : Result String StoredFile) (state : LibraryPage × ℕ × ℕ)
    → IsLoadedOnce state.0
    → IsLoadedOnce (parse_answered id r state).0
parse_answered-IsLoadedOnce id (ok given) (s, m, n) h = h
parse_answered-IsLoadedOnce id (err message) (s, m, n) h = h

pub parse_each-IsLoadedOnce :
    (answers : String → Result String StoredFile) (ids : List String) (state : LibraryPage × ℕ × ℕ)
    → IsLoadedOnce state.0
    → IsLoadedOnce (parse_each answers ids state).0
parse_each-IsLoadedOnce answers [] state h = h
parse_each-IsLoadedOnce answers (id ∷ ids) state h =
    parse_each-IsLoadedOnce answers ids (parse_answered id (answers id) state)
      (parse_answered-IsLoadedOnce id (answers id) state h)

pub chunks_answered-IsLoadedOnce :
    (r : Result String (Unit {0})) (state : LibraryPage × ℕ × ℕ)
    → IsLoadedOnce state.0
    → IsLoadedOnce (chunks_answered r state).0
chunks_answered-IsLoadedOnce (ok done) (s, m, n) h = h
chunks_answered-IsLoadedOnce (err message) (s, m, n) h = h

pub chunks_each-IsLoadedOnce :
    (answers : String → Result String (Unit {0})) (ids : List String) (state : LibraryPage × ℕ × ℕ)
    → IsLoadedOnce state.0
    → IsLoadedOnce (chunks_each answers ids state).0
chunks_each-IsLoadedOnce answers [] state h = h
chunks_each-IsLoadedOnce answers (id ∷ ids) state h =
    chunks_each-IsLoadedOnce answers ids (chunks_answered (answers id) state)
      (chunks_answered-IsLoadedOnce (answers id) state h)

pub parse_selected_files-IsLoadedOnce :
    (answers : String → Result String StoredFile) (s : LibraryPage)
    → IsLoadedOnce s
    → IsLoadedOnce (parse_selected_files answers s)
unfolding parse_selected_files
parse_selected_files-IsLoadedOnce answers s h =
    let state = parse_each answers s.selected_file_ids (record s { error = none }, 0, 0) in
    let parsed =
      parse_each-IsLoadedOnce answers s.selected_file_ids (record s { error = none }, 0, 0) h in
    let settled = record (state.0) { selected_file_ids = []; is_parsing = false } in
    let shown = told (parse_toast state.1 state.2) (reload_open settled) in
    kept_if (s.is_parsing || (s.disabled || length s.selected_file_ids == 0)) s shown h
      (reload_open-IsLoadedOnce settled parsed)

pub generate_chunks_for_files-IsLoadedOnce :
    (answers : String → Result String (Unit {0})) (ids : List String) (s : LibraryPage)
    → IsLoadedOnce s
    → IsLoadedOnce (generate_chunks_for_files answers ids s)
unfolding generate_chunks_for_files
generate_chunks_for_files-IsLoadedOnce answers ids s h =
    let state = chunks_each answers (set_of ids) (record s { error = none }, 0, 0) in
    let started =
      chunks_each-IsLoadedOnce answers (set_of ids) (record s { error = none }, 0, 0) h in
    let settled = record (state.0) { selected_file_ids = []; is_generating_chunks = false } in
    let shown = told (chunks_toast state.1 state.2) (reload_open settled) in
    kept_if (s.is_generating_chunks || (s.disabled || length ids == 0)) s shown h
      (reload_open-IsLoadedOnce settled started)
