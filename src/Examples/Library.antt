-- ===== src/Examples/Library.antt =====
-- A library whose files are loaded twice, where the first request fails once the second has begun.
use agent_workflow_fast_api.Base.{false, [], ◌∷◌, none, ◌≡◌, refl, string_eq, number_eq, ok}
use agent_workflow_fast_api.Library.Loads.{no_loads, begin_load, finish_load}
use agent_workflow_fast_api.Library.Page.{LibraryPage, load_files, files_answered, toggle_files}
use agent_workflow_fast_api.Library.Kept.{IsLoadedOnce}
use agent_workflow_fast_api.Library.Overlaps.{
  Turns, rest, next, opens_files, loads_files, files_arrive, Turns-IsLoadedOnce,
}

abbrev closed_library : LibraryPage
closed_library = record {
  knowledge_base_id = "kb1";
  disabled = false;
  files = [];
  is_files_open = false;
  has_loaded_files = false;
  selected_file_ids = [];
  file_loads = no_loads;
  error = none;
  parsed_documents = none;
  is_parsed_documents_open = false;
  has_loaded_parsed_documents = false;
  parsed_documents_error = none;
  document_loads = no_loads;
  requested_offset = 0;
  is_parsing = false;
  is_generating_chunks = false;
  toasts = [];
}

abbrev two_loads : LibraryPage
two_loads = load_files (toggle_files closed_library)

abbrev one_left : LibraryPage
one_left = files_answered 0 (ok (record { file_id = "f0"; status = "failed" } ∷ [])) two_loads

abbrev shown_files : LibraryPage
shown_files = files_answered 1 (ok (record { file_id = "f1"; status = "ready" } ∷ [])) one_left

overlapping : Turns closed_library shown_files
unfolding load_files files_answered toggle_files begin_load finish_load
overlapping =
    next
      (next
        (next (next rest (opens_files closed_library)) (loads_files (toggle_files closed_library)))
        (files_arrive two_loads 0 (record { file_id = "f0"; status = "failed" } ∷ []) refl))
      (files_arrive one_left 1 (record { file_id = "f1"; status = "ready" } ∷ []) refl)

one_file : shown_files.files ≡ record { file_id = "f1"; status = "ready" } ∷ []
unfolding load_files files_answered toggle_files begin_load finish_load
one_file = refl

Turns-IsLoadedOnce_example : IsLoadedOnce shown_files
Turns-IsLoadedOnce_example = Turns-IsLoadedOnce overlapping (
  record { loading = refl; held = refl; others = refl },
  record { loading = refl; held = refl; others = refl },
)
