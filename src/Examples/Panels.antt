-- ===== src/Examples/Panels.antt =====
-- A text that the model writes in two pieces, and one that breaks off, beside the panel of a browser.
use agent_workflow_fast_api.Base.{
  String, true, false, List, [], ◌∷◌, Option, none, some, ◌≡◌, refl, string_eq,
}
use agent_workflow_fast_api.Conversations.Tables.{Document, text}
use agent_workflow_fast_api.Artifacts.Panel.{
  StreamPart, data_clear, data_finish, data_text_delta, Panel, idle, ActiveChat,
  initial_artifact_data, handle_batches,
}
use agent_workflow_fast_api.Artifacts.Handlers.{
  ModelPart, ModelStream, text_delta, other_part, text_document_handler, draft_document,
  on_create_document, on_update_document,
}
use agent_workflow_fast_api.Artifacts.Streaming.{handle_batches-draft}
use agent_workflow_fast_api.Artifacts.Saving.{Ending, document_calls_store_what_is_shown}
use agent_workflow_fast_api.Examples.Members.{team}
use agent_workflow_fast_api.Examples.Chats.{server, store}

abbrev pieces : List ModelPart
pieces = text_delta "Hel" ∷ other_part ∷ text_delta "lo" ∷ []

abbrev model : Option Document → String → ModelStream
model none prompt = record { parts = pieces; breaks = false }
model (some document) prompt = record { parts = text_delta "He" ∷ []; breaks = true }

abbrev two_batches : List (List StreamPart)
two_batches =
    (data_clear ∷ data_text_delta "Hel" ∷ []) ∷ (data_text_delta "lo" ∷ data_finish ∷ []) ∷ []

abbrev one_batch : List (List StreamPart)
one_batch = (data_text_delta "He" ∷ []) ∷ []

-- What the handler alone writes.
abbrev two_parts : List (List StreamPart)
two_parts = (data_text_delta "Hel" ∷ []) ∷ (data_text_delta "lo" ∷ []) ∷ []

abbrev panel : Panel
panel = record {
  artifact = initial_artifact_data;
  metadata = λ id. none;
  history = record { local_chats = λ key. none; history = λ key. none };
}

abbrev open_chat : ActiveChat
open_chat = record {
  chat_id = "c1";
  identity = "ann";
  visibility = "private";
  now = "2025-01-01";
  history_key = "k" ∷ [];
}

abbrev report : Document
report = record {
  content = some "x";
  created_at = 5;
  id = "d";
  kind = text;
  title = "T";
  user_id = "ann";
  workspace_id = "w";
}

handle_batches-draft_example :
    ((handle_batches open_chat two_batches panel).artifact.content ≡ "Hello")
    × ((handle_batches open_chat two_batches panel).artifact.status ≡ idle)
unfolding draft_document
handle_batches-draft_example =
    handle_batches-draft open_chat 0 text_document_handler pieces two_batches panel refl refl refl

document_calls_store_what_is_shown_example :
    Ending server team text "d9" "Report"
      (handle_batches open_chat two_parts panel).artifact.content
      false
      (some "ann")
      store
      (on_create_document server team model text_document_handler "d9" "Report"
        (some "ann")
        store).0
    × Ending server team text "d" "T"
        (handle_batches open_chat one_batch panel).artifact.content
        true
        (some "ann")
        store
        (on_update_document server team model text_document_handler report "Shorter"
          (some "ann")
          store).0
unfolding draft_document on_create_document on_update_document
document_calls_store_what_is_shown_example =
    document_calls_store_what_is_shown server team model open_chat 0 text_document_handler "d9"
      "Report" report "Shorter" (some "ann") store two_parts one_batch panel refl refl refl refl
      refl
