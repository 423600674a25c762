-- ===== src/Examples/Chats.antt =====
-- Two users' chats on a server that serves every statement, and a cached history of them.
use agent_workflow_fast_api.Base.{
  ℕ, String, true, false, [], ◌∷◌, none, some, ◌≡◌, refl, string_eq, number_eq, length, get_or, ok,
}
use agent_workflow_fast_api.Database.Sorting.{sorting}
use agent_workflow_fast_api.Conversations.Tables.{
  Chat, DbMessage, Document, Suggestion, private, text,
}
use agent_workflow_fast_api.Conversations.Statements.{Server, Store, chat_ids}
use agent_workflow_fast_api.Conversations.Queries.{owned_by, delete_all_chats_by_user_id}
use agent_workflow_fast_api.Conversations.Paging.{get_chats_by_user_id, older_than}
use agent_workflow_fast_api.Conversations.Queries.{update_document_content}
use agent_workflow_fast_api.Conversations.Versions.{Updated, update_document_content_lem}
use agent_workflow_fast_api.Conversations.Deletion.{
  without_chats, chats_of, delete_all_chats_by_user_id_lem,
}
use agent_workflow_fast_api.Conversations.Pages.{Answer, get_chats_by_user_id_lem}
use agent_workflow_fast_api.Conversations.Errors.{ChatbotError, bad_request, database}
use agent_workflow_fast_api.ChatHistory.Cache.{
  ChatHistoryEntry, QueryClient, get_local_chat_history_query_key, existing_pages,
  upsert_chat_history,
}
use agent_workflow_fast_api.ChatHistory.Entries.{IsUpsert, entries_of, upsert_chat_history-IsUpsert}

abbrev pub server : Server
server = record {
  engine = sorting;
  online = λ n. true;
  now = λ n. 100;
  has_user = λ u. true;
  has_workspace = λ w. true;
}

abbrev pub chat : String → String → ℕ → Chat
chat id user at = record {
  created_at = at;
  id = id;
  title = "New chat";
  user_id = user;
  visibility = private;
  workspace_id = "w";
}

abbrev pub message : String → String → ℕ → DbMessage
message id chat_id at = record {
  attachments = "[]";
  chat_id = chat_id;
  created_at = at;
  id = id;
  parts = "[]";
  role = "user";
}

abbrev version : ℕ → Document
version at = record {
  content = some "x";
  created_at = at;
  id = "d";
  kind = text;
  title = "T";
  user_id = "ann";
  workspace_id = "w";
}

abbrev suggestion : String → ℕ → Suggestion
suggestion id at = record {
  created_at = 9;
  description = none;
  document_created_at = at;
  document_id = "d";
  id = id;
  is_resolved = false;
  original_text = "a";
  suggested_text = "b";
  user_id = "ann";
}

abbrev pub store : Store
store = record {
  tables = record {
    chats = chat "c1" "ann" 1 ∷ chat "c2" "bob" 2 ∷ chat "c3" "ann" 3 ∷ [];
    messages = message "m1" "c1" 4 ∷ message "m2" "c2" 5 ∷ message "m3" "c1" 6 ∷ [];
    documents = version 1 ∷ version 2 ∷ version 3 ∷ [];
    suggestions = suggestion "s1" 1 ∷ suggestion "s2" 3 ∷ [];
    streams = record { chat_id = "c1"; created_at = 7; id = "r" } ∷ [];
  };
  statements = 0;
}

delete_all_chats_by_user_id_lem_example :
    let ids = chat_ids (chats_of "ann" "w" store.tables) in
    ((delete_all_chats_by_user_id server "ann" "w" store).0 ≡ ok (length ids))
    × ((delete_all_chats_by_user_id server "ann" "w" store).1.tables
        ≡ without_chats (owned_by "ann" "w") ids store.tables)
delete_all_chats_by_user_id_lem_example =
    delete_all_chats_by_user_id_lem server "ann" "w" store (λ n. refl)

get_chats_by_user_id_lem_example :
    Answer "ann" "w" 1 store.tables
      (some (older_than 3))
      (get_chats_by_user_id server "ann" "w" 1 none (some "c3") store)
unfolding owned_by
get_chats_by_user_id_lem_example =
    get_chats_by_user_id_lem server "ann" "w" 1 none (some "c3") store (λ n. refl)

update_document_content_lem_example :
    Updated "d" "new" "ann" store.tables (update_document_content server "d" "new" "ann" store)
update_document_content_lem_example =
    update_document_content_lem server "d" "new" "ann" store (λ n. refl)

abbrev entry : String → String → ChatHistoryEntry
entry id title = record {
  created_at = "2025";
  id = id;
  title = title;
  user_id = none;
  visibility = "private";
  workspace_id = none;
}

abbrev client : QueryClient
client = record {
  local_chats = λ k. none;
  history = λ k. some (record {
    pages = record { chats = entry "c1" "New chat" ∷ entry "c2" "Two" ∷ []; has_more = false } ∷ [];
    page_params = none ∷ [];
  });
}

upsert_chat_history-IsUpsert_example :
    let local_key = get_local_chat_history_query_key ("history" ∷ []) in
    let after = upsert_chat_history client ("history" ∷ []) (entry "c1" "One") false in
    IsUpsert "c1"
      (get_or (client.local_chats local_key) [])
      (get_or (after.local_chats local_key) [])
    × IsUpsert "c1"
        (entries_of (existing_pages (client.history ("history" ∷ []))))
        (entries_of (existing_pages (after.history ("history" ∷ []))))
upsert_chat_history-IsUpsert_example =
    upsert_chat_history-IsUpsert client ("history" ∷ []) (entry "c1" "One") false

abbrev failed_with : String → ChatbotError
failed_with cause = record { type = bad_request; surface = database; cause = some cause }
