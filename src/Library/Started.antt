-- ===== src/Library/Started.antt =====
-- frontend/src/components/upload/knowledgeFileLibrary.tsx: starting the parsing of the selected files, and
-- the generation of chunks. Either is one turn, with an answer of the backend for each file.
use agent_workflow_fast_api.Base.{
  ℕ, suc, String, false, ◌||◌, List, [], ◌∷◌, map, none, some, ◌==◌, string_eq, number_eq, ltb,
  if◌then◌else◌, set_of, length, Result, ok, err,
}
use agent_workflow_fast_api.Library.Page.{
  StoredFile, LibraryPage, load_failed, LibraryToast, parse_started, parse_partial, parse_failed,
  chunks_started, chunks_partial, chunks_failed, reload_open,
}

abbrev pub replace_file : String → StoredFile → List StoredFile → List StoredFile
replace_file id given = map (λ file. if file.file_id == id then given else file)

abbrev pub parse_answered :
    String → Result String StoredFile → LibraryPage × ℕ × ℕ → LibraryPage × ℕ × ℕ
parse_answered id (ok given) (s, started, failures) =
    (record s { files = replace_file id given s.files }, suc started, failures)
parse_answered id (err message) (s, started, failures) =
    (record s { error = some (load_failed message) }, started, suc failures)

abbrev pub parse_each :
    (String → Result String StoredFile) → List String → LibraryPage × ℕ × ℕ → LibraryPage × ℕ × ℕ
parse_each answers [] state = state
parse_each answers (id ∷ ids) state = parse_each answers ids (parse_answered id (answers id) state)

abbrev pub parse_toast : ℕ → ℕ → LibraryToast
parse_toast started failures =
    if failures == 0
    then parse_started started
    else if ltb 0 started
    then parse_partial started
    else parse_failed

abbrev pub told : LibraryToast → LibraryPage → LibraryPage
told toast s = record s { toasts = toast ∷ s.toasts }

unfoldable pub parse_selected_files :
    (String → Result String StoredFile) → LibraryPage → LibraryPage
unfolding reload_open
parse_selected_files answers s =
    if s.is_parsing || (s.disabled || length s.selected_file_ids == 0)
    then s
    else let state = parse_each answers s.selected_file_ids (record s { error = none }, 0, 0) in
      told (parse_toast state.1 state.2)
        (reload_open (record (state.0) { selected_file_ids = []; is_parsing = false }))

abbrev pub chunks_answered : Result String (Unit {0}) → LibraryPage × ℕ × ℕ → LibraryPage × ℕ × ℕ
chunks_answered (ok done) (s, started, failures) = (s, suc started, failures)
chunks_answered (err message) (s, started, failures) =
    (record s { error = some (load_failed message) }, started, suc failures)

abbrev pub chunks_each :
    (String → Result String (Unit {0})) → List String → LibraryPage × ℕ × ℕ → LibraryPage × ℕ × ℕ
chunks_each answers [] state = state
chunks_each answers (id ∷ ids) state = chunks_each answers ids (chunks_answered (answers id) state)

abbrev pub chunks_toast : ℕ → ℕ → LibraryToast
chunks_toast started failures =
    if failures == 0
    then chunks_started started
    else if ltb 0 started
    then chunks_partial started
    else chunks_failed

unfoldable pub generate_chunks_for_files :
    (String → Result String (Unit {0})) → List String → LibraryPage → LibraryPage
unfolding reload_open
generate_chunks_for_files answers file_ids s =
    if s.is_generating_chunks || (s.disabled || length file_ids == 0)
    then s
    else let state = chunks_each answers (set_of file_ids) (record s { error = none }, 0, 0) in
      told (chunks_toast state.1 state.2)
        (reload_open (record (state.0) { selected_file_ids = []; is_generating_chunks = false }))
