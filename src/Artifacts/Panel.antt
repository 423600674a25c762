-- ===== src/Artifacts/Panel.antt =====
-- frontend/src/components/chat/dataStreamHandler.tsx: the parts of a data stream, and how the panel of
-- an artifact (frontend/src/hooks/useArtifact.ts) takes them, with `onStreamPart` of the four kinds in
-- frontend/src/artifacts. The box on the screen that the artifact came from is left out.
use Prim.Native.Char.{code}
use Prim.Native.String
use agent_workflow_fast_api.Base.{
  ℕ, ◌+◌, String, Bool, true, false, ◌&&◌, List, [], ◌∷◌, ◌++◌, Option, none, some, ◌==◌, string_eq,
  ltb, if◌then◌else◌,
}
use agent_workflow_fast_api.Conversations.Tables.{
  ArtifactKind, text, code as code_kind, image, sheet, Suggestion,
}
use agent_workflow_fast_api.ChatHistory.Cache.{ChatHistoryEntry, QueryClient, upsert_chat_history}

pub data Status : Type 0 where
  streaming idle : Status

pub record UiArtifact : Type 0 where
  pub content : String
  pub document_id : String
  pub is_visible : Bool
  pub kind : ArtifactKind
  pub status : Status
  pub title : String

abbrev pub initial_artifact_data : UiArtifact
initial_artifact_data = record {
  content = "";
  document_id = "init";
  is_visible = false;
  kind = text;
  status = idle;
  title = "";
}

-- What a server writes to the stream; `data_other` is a part that no case names.
pub data StreamPart : Type 0 where
  data_chat_title data_id data_title : String → StreamPart
  data_kind : ArtifactKind → StreamPart
  data_clear data_finish data_other : StreamPart
  data_text_delta data_code_delta data_sheet_delta data_image_delta : String → StreamPart
  data_suggestion : Suggestion → StreamPart

-- The artifact, its metadata under the id of the document, and the cached chat history.
pub record Panel : Type 0 where
  pub artifact : UiArtifact
  pub metadata : String → Option (List Suggestion)
  pub history : QueryClient

-- The chat that is open, and the keys it is kept under.
pub record ActiveChat : Type 0 where
  pub chat_id : String
  pub identity : String
  pub visibility : String
  pub now : String
  pub history_key : List String

-- The `length` of a text, in UTF-16 code units.
unfoldable pub utf16_length : String → ℕ
utf16_length String.[] = 0
utf16_length (String.◌∷◌ c s) = (if ltb 65535 (code c) then 2 else 1) + utf16_length s

abbrev pub is_streaming : Status → Bool
is_streaming streaming = true
is_streaming idle = false

-- A panel that is hidden opens while the content is between the two lengths.
abbrev pub opens : ℕ → ℕ → UiArtifact → Bool
opens low high a =
    if is_streaming a.status
      && (ltb low (utf16_length a.content) && ltb (utf16_length a.content) high)
    then true
    else a.is_visible

unfoldable pub append_text : String → UiArtifact → UiArtifact
append_text delta a = record a {
  content = String.◌++◌ a.content delta;
  is_visible = opens 400 450 a;
  status = streaming;
}

unfoldable pub replace_code : String → UiArtifact → UiArtifact
replace_code content a = record a {
  content = content;
  is_visible = opens 300 310 a;
  status = streaming;
}

-- Sheets and images.
unfoldable pub replace_content : String → UiArtifact → UiArtifact
replace_content content a = record a { content = content; is_visible = true; status = streaming }

-- `setMetadata` of the hook: without a document there is no key, and without metadata the updater
-- throws before it has changed any.
abbrev pub appended_to : Suggestion → Option (List Suggestion) → Option (List Suggestion)
appended_to suggestion none = none
appended_to suggestion (some suggestions) = some (suggestions ++ (suggestion ∷ []))

unfoldable pub add_suggestion :
    String → Suggestion → (String → Option (List Suggestion)) → String → Option (List Suggestion)
add_suggestion document_id suggestion metadata id =
    if document_id == ""
    then metadata id
    else if id == document_id
    then appended_to suggestion (metadata id)
    else metadata id

abbrev pub set_artifact : (UiArtifact → UiArtifact) → Panel → Panel
set_artifact f p = record p { artifact = f p.artifact }

-- `onStreamPart` of the definition of a kind; the id is that of the document of the hook.
unfoldable pub on_stream_part : ArtifactKind → String → StreamPart → Panel → Panel
on_stream_part text document_id (data_suggestion s) p = record p {
  metadata = add_suggestion document_id s p.metadata;
}
on_stream_part text document_id (data_text_delta s) p = set_artifact (append_text s) p
on_stream_part code_kind document_id (data_code_delta s) p = set_artifact (replace_code s) p
on_stream_part sheet document_id (data_sheet_delta s) p = set_artifact (replace_content s) p
on_stream_part image document_id (data_image_delta s) p = set_artifact (replace_content s) p
on_stream_part _ _ _ p = p

-- The changes that do not depend on the kind.
unfoldable pub update_artifact : StreamPart → UiArtifact → UiArtifact
update_artifact (data_id id) a = record a { document_id = id; status = streaming }
update_artifact (data_title title) a = record a { status = streaming; title = title }
update_artifact (data_kind kind) a = record a { kind = kind; status = streaming }
update_artifact data_clear a = record a { content = ""; status = streaming }
update_artifact data_finish a = record a { status = idle }
update_artifact _ a = a

unfoldable pub titled_chat : ActiveChat → String → ChatHistoryEntry
titled_chat chat title = record {
  created_at = chat.now;
  id = chat.chat_id;
  title = title;
  user_id = some chat.identity;
  visibility = chat.visibility;
  workspace_id = none;
}

-- One delta; the kind and the id are those of the artifact as it was drawn.
unfoldable pub handle_delta : ActiveChat → ArtifactKind → String → StreamPart → Panel → Panel
handle_delta chat kind document_id (data_chat_title title) p = record p {
  history = upsert_chat_history p.history chat.history_key (titled_chat chat title) true;
}
handle_delta chat kind document_id delta p =
    set_artifact (update_artifact delta) (on_stream_part kind document_id delta p)

unfoldable pub handle_deltas : ActiveChat → ArtifactKind → String → List StreamPart → Panel → Panel
handle_deltas chat kind document_id [] p = p
handle_deltas chat kind document_id (delta ∷ deltas) p =
    handle_deltas chat kind document_id deltas (handle_delta chat kind document_id delta p)

-- The effect on one batch of deltas.
unfoldable pub handle_batch : ActiveChat → List StreamPart → Panel → Panel
handle_batch chat deltas p = handle_deltas chat p.artifact.kind p.artifact.document_id deltas p

-- Batches, with the panel drawn anew before each.
unfoldable pub handle_batches : ActiveChat → List (List StreamPart) → Panel → Panel
handle_batches chat [] p = p
handle_batches chat (deltas ∷ batches) p = handle_batches chat batches (handle_batch chat deltas p)
