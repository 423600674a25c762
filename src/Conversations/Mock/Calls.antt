-- ===== src/Conversations/Mock/Calls.antt =====
-- frontend/src/lib/db/mock.ts: the calls that change the maps, as data.
use agent_workflow_fast_api.Base.{ℕ, String, List, [], ◌∷◌, ◌==◌, string_eq, find?, get_or, map_get}
use agent_workflow_fast_api.Conversations.Tables.{Chat, DbMessage, VisibilityType}
use agent_workflow_fast_api.Conversations.Contract.{
  View, Change, saves_chat, saves_messages, updates_message, cuts_messages, sets_visibility,
  sets_title, deletes_chat, deletes_chats,
}
use agent_workflow_fast_api.Conversations.Mock.{
  MockDatabase, mock_save_chat, mock_save_messages, mock_update_message,
  mock_delete_messages_after_timestamp, mock_update_chat_visibility, mock_update_chat_title,
  mock_delete_chat_by_id, mock_delete_all_chats_by_user_id,
}

pub data MockCall : Type 0 where
  save_chat_call : Chat → MockCall
  save_messages_call : List DbMessage → MockCall
  update_message_call : String → String → MockCall
  delete_after_call : String → ℕ → MockCall
  visibility_call : String → VisibilityType → MockCall
  title_call : String → String → MockCall
  delete_chat_call : String → MockCall
  delete_all_call : String → MockCall

unfoldable pub apply : MockCall → MockDatabase → MockDatabase
apply (save_chat_call item) d = (mock_save_chat item d).1
apply (save_messages_call items) d = (mock_save_messages items d).1
apply (update_message_call id parts) d = mock_update_message id parts d
apply (delete_after_call chat_id timestamp) d =
    mock_delete_messages_after_timestamp chat_id timestamp d
apply (visibility_call chat_id visibility) d = mock_update_chat_visibility chat_id visibility d
apply (title_call chat_id title) d = mock_update_chat_title chat_id title d
apply (delete_chat_call id) d = mock_delete_chat_by_id id d
apply (delete_all_call user_id) d = (mock_delete_all_chats_by_user_id user_id d).1

abbrev pub apply_all : List MockCall → MockDatabase → MockDatabase
apply_all [] d = d
apply_all (call ∷ calls) d = apply_all calls (apply call d)

abbrev pub empty : MockDatabase
empty = record { chats = []; messages = [] }

-- What a call promises.
abbrev pub change_of : MockCall → Change
change_of (save_chat_call item) = saves_chat item
change_of (save_messages_call items) = saves_messages items
change_of (update_message_call id parts) = updates_message id parts
change_of (delete_after_call chat_id timestamp) = cuts_messages chat_id timestamp
change_of (visibility_call chat_id visibility) = sets_visibility chat_id visibility
change_of (title_call chat_id title) = sets_title chat_id title
change_of (delete_chat_call id) = deletes_chat id
change_of (delete_all_call user_id) = deletes_chats (λ c. c.user_id == user_id)

-- What the maps hold.
abbrev pub view : MockDatabase → View
view d = record {
  chat_of = λ id. map_get id d.chats;
  message_of = λ chat_id id. find? (λ m. m.id == id) (get_or (map_get chat_id d.messages) []);
}
