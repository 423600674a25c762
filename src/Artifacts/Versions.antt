-- ===== src/Artifacts/Versions.antt =====
-- frontend/src/components/chat/artifact.tsx: the versions of a document in the panel, and the saving of
-- changes. A timer fires in a turn of its own; the answer to a saved change is an argument.
use agent_workflow_fast_api.Base.{
  ℕ, zero, suc, ◌-◌, ◌<◌, String, Bool, true, false, not, ◌&&◌, List, [], ◌∷◌, Option, none, some,
  ◌≡◌, arith, ◌==◌, string_eq, number_eq, ltb, get_or, get_elem?, if◌then◌else◌, length, Bool-cases,
  inl, inr,
}
use agent_workflow_fast_api.Conversations.Tables.{Document}
use agent_workflow_fast_api.Artifacts.Panel.{UiArtifact, is_streaming}

pub data PanelMode : Type 0 where
  edit diff : PanelMode

pub data VersionChange : Type 0 where
  to_next to_prev to_toggle to_latest : VersionChange

-- `saves` has the contents that were handed to `handleContentChange`, newest first. An index is absent
-- where the source has -1.
pub record DocumentVersions : Type 0 where
  pub documents : Option (List Document)
  pub artifact : UiArtifact
  pub mode : PanelMode
  pub document : Option Document
  pub current_version_index : Option ℕ
  pub is_content_dirty : Bool
  pub latest_content : String
  pub has_timer : Bool

abbrev pub last_document : List Document → Option Document
last_document [] = none
last_document (d ∷ []) = some d
last_document (d ∷ e ∷ ds) = last_document (e ∷ ds)

abbrev pub documents_shown : List Document → Option Document → DocumentVersions → DocumentVersions
documents_shown documents none s = s
documents_shown documents (some d) s = record s {
  document = some d;
  current_version_index = some (length documents - 1);
  artifact =
      if is_streaming s.artifact.status
      then record (s.artifact) { content = get_or d.content "" }
      else if s.is_content_dirty
      then s.artifact
      else record (s.artifact) { content = get_or d.content "" };
}

-- The effect of the documents that were fetched.
unfoldable pub on_documents : DocumentVersions → DocumentVersions
on_documents s = elim s.documents [
  | none ↦ s
  | some documents ↦ documents_shown documents (last_document documents) s
]

-- The changes to the cached documents, with whether the request was sent.
abbrev pub with_last_content : String → List Document → List Document
with_last_content content [] = []
with_last_content content (d ∷ []) = record d { content = some content } ∷ []
with_last_content content (d ∷ e ∷ ds) = d ∷ with_last_content content (e ∷ ds)

abbrev pub has_content : Option String → Bool
has_content none = false
has_content (some content) = not (content == "")

-- A content that is empty, or the same, is not sent.
abbrev pub is_sent : String → Option Document → Bool
is_sent updated none = false
is_sent updated (some d) = has_content d.content && not (get_or d.content "" == updated)

-- `handleContentChange`; the flag says whether the backend accepts the change. A refused one leaves the
-- cache and the mark that the content is dirty.
unfoldable pub handle_content_change : Bool → String → DocumentVersions → DocumentVersions
handle_content_change accepted updated s = elim s.documents [
  | none ↦ record s { documents = some [] }
  | some documents ↦
      if is_sent updated (last_document documents)
      then if accepted
        then record s {
          documents = some (with_last_content updated documents);
          is_content_dirty = false;
        }
        else s
      else record s { is_content_dirty = false }
]

unfoldable pub save_content : Bool → String → Bool → DocumentVersions → DocumentVersions
save_content accepted updated debounce s =
    let dirty = record s {
      latest_content = updated;
      is_content_dirty = true;
      has_timer = debounce;
    } in
    if debounce then dirty else handle_content_change accepted updated dirty

-- The timer of two seconds.
unfoldable pub on_timer : Bool → DocumentVersions → DocumentVersions
on_timer accepted s =
    if s.has_timer
    then record (handle_content_change accepted s.latest_content s) { has_timer = false }
    else s

unfoldable pub get_document_content_by_id : ℕ → DocumentVersions → String
get_document_content_by_id index s = elim s.documents [
  | none ↦ ""
  | some documents ↦ elim (get_elem? documents index) [ none ↦ "" | some d ↦ get_or d.content "" ]
]

abbrev pub other_mode : PanelMode → PanelMode
other_mode edit = diff
other_mode diff = edit

abbrev pub before : Option ℕ → Option ℕ
before none = none
before (some zero) = some zero
before (some (suc i)) = some i

-- `index < documents.length - 1`, for an index from -1 on
abbrev pub after_in : ℕ → Option ℕ → Option ℕ
after_in n none = if ltb 0 n then some 0 else none
after_in n (some i) = if ltb (suc i) n then some (suc i) else some i

abbrev pub last_index : ℕ → Option ℕ
last_index zero = none
last_index (suc n) = some n

unfoldable pub handle_version_change : VersionChange → DocumentVersions → DocumentVersions
handle_version_change change s = elim s.documents [
  | none ↦ s
  | some documents ↦ elim change [
    | to_latest ↦ record s { current_version_index = last_index (length documents); mode = edit }
    | to_toggle ↦ record s { mode = other_mode s.mode }
    | to_prev ↦ record s { current_version_index = before s.current_version_index }
    | to_next ↦ record s {
      current_version_index = after_in (length documents) s.current_version_index;
    }
  ]
]

unfoldable pub handle_close : DocumentVersions → DocumentVersions
handle_close s = record s { artifact = record (s.artifact) { is_visible = false } }

-- An index that is there is one of a version.
abbrev pub InRange : ℕ → Option ℕ → Type 0
InRange n none = Unit {0}
InRange n (some i) = i < n

before-InRange : (n : ℕ) (o : Option ℕ) → InRange n o → InRange n (before o)
before-InRange n none h = tt
before-InRange n (some zero) h = h
before-InRange n (some (suc i)) h = omega arith

after_in-InRange : (n : ℕ) (o : Option ℕ) → InRange n o → InRange n (after_in n o)
after_in-InRange n none h = elim (Bool-cases (ltb 0 n)) [
  | inl e ↦ rw e (ground arith)
  | inr e ↦ rw e tt
]
after_in-InRange n (some i) h = elim (Bool-cases (ltb (suc i) n)) [
  | inl e ↦ rw e (ground arith)
  | inr e ↦ rw e h
]

last_index-InRange : (n : ℕ) → InRange n (last_index n)
last_index-InRange zero = tt
last_index-InRange (suc n) = omega arith

-- The buttons for the versions never leave the versions that there are.
handle_version_change-InRange :
    (change : VersionChange) (s : DocumentVersions) (documents : List Document)
    → s.documents ≡ some documents
    → InRange (length documents) s.current_version_index
    → InRange (length documents) (handle_version_change change s).current_version_index
unfolding handle_version_change
handle_version_change-InRange to_latest s documents held h =
    rw held (last_index-InRange (length documents))
handle_version_change-InRange to_toggle s documents held h = rw held h
handle_version_change-InRange to_prev s documents held h =
    rw held (before-InRange _ s.current_version_index h)
handle_version_change-InRange to_next s documents held h =
    rw held (after_in-InRange _ s.current_version_index h)
