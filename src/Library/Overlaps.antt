-- ===== src/Library/Overlaps.antt =====
-- frontend/src/components/upload/knowledgeFileLibrary.tsx: the loads of the library under any order of the
-- user's clicks, effects and answers. A request that is aborted settles with an error, or still with its
-- data: `requestBackend` does not listen to the signal any more once it reads the body.
use agent_workflow_fast_api.Base.{
  ℕ, String, true, List, ◌≡◌, string_eq, number_eq, contains, Result, ok, err,
}
use agent_workflow_fast_api.Library.Page.{
  StoredFile, DocumentsPage, LoadError, LibraryPage, load_files, files_answered,
  load_parsed_documents, documents_answered, on_knowledge_base, reload_open, on_files, poll,
  toggle_files, toggle_parsed_documents, toggle_file, toggle_all,
}
use agent_workflow_fast_api.Library.Started.{parse_selected_files, generate_chunks_for_files}
use agent_workflow_fast_api.Library.OneLoad.{abort_current-IsOneLoad}
use agent_workflow_fast_api.Library.Kept.{
  IsLoadedOnce, load_files-IsLoadedOnce, load_parsed_documents-IsLoadedOnce,
  files_answered-IsLoadedOnce, documents_answered-IsLoadedOnce, reload_open-IsLoadedOnce,
  poll-IsLoadedOnce, toggle_files-IsLoadedOnce, toggle_parsed_documents-IsLoadedOnce,
  parse_selected_files-IsLoadedOnce, generate_chunks_for_files-IsLoadedOnce,
}

-- One turn: a click, an effect, or a request that settles. Only a request that is under way settles, in
-- either way, also one that is aborted.
pub data Turn : LibraryPage → LibraryPage → Type 0 where
  switches : (s : LibraryPage) (id : String) → Turn s (on_knowledge_base id s)
  opens_files : (s : LibraryPage) → Turn s (toggle_files s)
  opens_documents : (s : LibraryPage) → Turn s (toggle_parsed_documents s)
  loads_files : (s : LibraryPage) → Turn s (load_files s)
  loads_documents : (s : LibraryPage) (offset : ℕ) → Turn s (load_parsed_documents offset s)
  refreshes : (s : LibraryPage) → Turn s (reload_open s)
  polls : (s : LibraryPage) → Turn s (poll s)
  prunes : (s : LibraryPage) → Turn s (on_files s)
  selects : (s : LibraryPage) (id : String) → Turn s (toggle_file id s)
  selects_all : (s : LibraryPage) → Turn s (toggle_all s)
  parses :
      (s : LibraryPage) (answers : String → Result String StoredFile)
      → Turn s (parse_selected_files answers s)
  chunks :
      (s : LibraryPage) (answers : String → Result String (Unit {0})) (ids : List String)
      → Turn s (generate_chunks_for_files answers ids s)
  files_arrive :
      (s : LibraryPage) (i : ℕ) (files : List StoredFile)
      → contains s.file_loads.under_way i ≡ true
      → Turn s (files_answered i (ok files) s)
  files_fail :
      (s : LibraryPage) (i : ℕ) (e : LoadError)
      → contains s.file_loads.under_way i ≡ true
      → Turn s (files_answered i (err e) s)
  documents_arrive :
      (s : LibraryPage) (i : ℕ) (page : DocumentsPage)
      → contains s.document_loads.under_way i ≡ true
      → Turn s (documents_answered i (ok page) s)
  documents_fail :
      (s : LibraryPage) (i : ℕ) (e : LoadError)
      → contains s.document_loads.under_way i ≡ true
      → Turn s (documents_answered i (err e) s)

pub data Turns : LibraryPage → LibraryPage → Type 0 where
  rest : {s : LibraryPage} → Turns s s
  next : {s t u : LibraryPage} → Turns s t → Turn t u → Turns s u

Turn-IsLoadedOnce : {s t : LibraryPage} → Turn s t → IsLoadedOnce s → IsLoadedOnce t
unfolding on_knowledge_base on_files toggle_file toggle_all
Turn-IsLoadedOnce (switches s id) h =
    (abort_current-IsOneLoad s.file_loads h.0, abort_current-IsOneLoad s.document_loads h.1)
Turn-IsLoadedOnce (opens_files s) h = toggle_files-IsLoadedOnce s h
Turn-IsLoadedOnce (opens_documents s) h = toggle_parsed_documents-IsLoadedOnce s h
Turn-IsLoadedOnce (loads_files s) h = load_files-IsLoadedOnce s h
Turn-IsLoadedOnce (loads_documents s offset) h = load_parsed_documents-IsLoadedOnce offset s h
Turn-IsLoadedOnce (refreshes s) h = reload_open-IsLoadedOnce s h
Turn-IsLoadedOnce (polls s) h = poll-IsLoadedOnce s h
Turn-IsLoadedOnce (prunes s) h = h
Turn-IsLoadedOnce (selects s id) h = h
Turn-IsLoadedOnce (selects_all s) h = h
Turn-IsLoadedOnce (parses s answers) h = parse_selected_files-IsLoadedOnce answers s h
Turn-IsLoadedOnce (chunks s answers ids) h = generate_chunks_for_files-IsLoadedOnce answers ids s h
Turn-IsLoadedOnce (files_arrive s i files u) h = files_answered-IsLoadedOnce i (ok files) s h
Turn-IsLoadedOnce (files_fail s i e u) h = files_answered-IsLoadedOnce i (err e) s h
Turn-IsLoadedOnce (documents_arrive s i page u) h = documents_answered-IsLoadedOnce i (ok page) s h
Turn-IsLoadedOnce (documents_fail s i e u) h = documents_answered-IsLoadedOnce i (err e) s h

-- If the following holds of a page, it holds however clicks, effects and answers follow, also answers to
-- requests that were aborted: the page says that it loads files, or documents, just while it holds a
-- controller, whose request is under way, and every other request that is under way is aborted.
pub Turns-IsLoadedOnce : {s t : LibraryPage} → Turns s t → IsLoadedOnce s → IsLoadedOnce t
Turns-IsLoadedOnce rest h = h
Turns-IsLoadedOnce (next ts turn) h = Turn-IsLoadedOnce turn (Turns-IsLoadedOnce ts h)
