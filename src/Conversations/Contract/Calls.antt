-- ===== src/Conversations/Contract/Calls.antt =====
-- frontend/src/lib/db/queries.ts: the calls that change chats and messages of a database, as data.
use agent_workflow_fast_api.Base.{
  ℕ, String, true, false, List, [], ◌≡◌, ◌==◌, string_eq, any, distinct, All, ◌≢◌, resolve, ◌>>=◌,
}
use agent_workflow_fast_api.Conversations.Tables.{Tables, DbMessage, VisibilityType}
use agent_workflow_fast_api.Conversations.Statements.{Server, Store, Call}
use agent_workflow_fast_api.Conversations.Queries.{
  owned_by, save_chat, save_messages, update_message, delete_messages_by_chat_id_after_timestamp,
  update_chat_visibility_by_id, update_chat_title_by_id, delete_chat_by_id,
  delete_all_chats_by_user_id,
}
use agent_workflow_fast_api.Conversations.Truncation.{message_ids}
use agent_workflow_fast_api.Conversations.Contract.{
  Change, saves_chat, saves_messages, updates_message, cuts_messages, sets_visibility, sets_title,
  deletes_chat, deletes_chats,
}

-- The calls that change chats and messages.
pub data TableCall : Type 0 where
  saving_chat : String → String → String → VisibilityType → String → TableCall
  saving_messages : List DbMessage → TableCall
  updating_message : String → String → TableCall
  cutting_messages : String → ℕ → TableCall
  setting_visibility : String → VisibilityType → TableCall
  setting_title : String → String → TableCall
  deleting_chat : String → TableCall
  deleting_chats : String → String → TableCall

abbrev pub without_result : {A : Type 0} → Call A → Call (Unit {0})
without_result m = m >>= λ a. resolve tt

unfoldable pub send : Server → TableCall → Call (Unit {0})
send p (saving_chat id user_id title visibility workspace_id) =
    save_chat p id user_id title visibility workspace_id
send p (saving_messages items) = save_messages p items
send p (updating_message id parts) = update_message p id parts
send p (cutting_messages chat_id timestamp) =
    delete_messages_by_chat_id_after_timestamp p chat_id timestamp
send p (setting_visibility chat_id visibility) = update_chat_visibility_by_id p chat_id visibility
send p (setting_title chat_id title) = update_chat_title_by_id p chat_id title
send p (deleting_chat id) = without_result (delete_chat_by_id p id)
send p (deleting_chats user_id workspace_id) =
    without_result (delete_all_chats_by_user_id p user_id workspace_id)

-- What a call promises; a chat is saved with the time of its statement.
abbrev pub promise : Server → Store → TableCall → Change
promise p s (saving_chat id user_id title visibility workspace_id) = saves_chat (record {
  created_at = p.now s.statements;
  id = id;
  title = title;
  user_id = user_id;
  visibility = visibility;
  workspace_id = workspace_id;
})
promise p s (saving_messages items) = saves_messages items
promise p s (updating_message id parts) = updates_message id parts
promise p s (cutting_messages chat_id timestamp) = cuts_messages chat_id timestamp
promise p s (setting_visibility chat_id visibility) = sets_visibility chat_id visibility
promise p s (setting_title chat_id title) = sets_title chat_id title
promise p s (deleting_chat id) = deletes_chat id
promise p s (deleting_chats user_id workspace_id) = deletes_chats (owned_by user_id workspace_id)

-- What the keys ask of a call: a new id, the user and the workspace of a chat, and at least one message,
-- with new ids and in chats that are there.
abbrev pub Allowed : Server → Tables → TableCall → Type 0
Allowed p t (saving_chat id user_id title visibility workspace_id) =
    (any (λ c. c.id == id) t.chats ≡ false)
    × (p.has_user user_id ≡ true)
    × (p.has_workspace workspace_id ≡ true)
Allowed p t (saving_messages items) =
    (items ≢ [])
    × (distinct (message_ids items) ≡ true)
    × All
        (λ m.
          (any (λ n. n.id == m.id) t.messages ≡ false)
          × (any (λ c. c.id == m.chat_id) t.chats ≡ true))
        items
Allowed p t _ = Unit
