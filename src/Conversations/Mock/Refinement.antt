-- ===== src/Conversations/Mock/Refinement.antt =====
-- frontend/src/lib/db/mock.ts: that the calls in memory do what the contract of the chats says.
use agent_workflow_fast_api.Base.{
  String, List, [], ◌∷◌, map, none, ◌≡◌, refl, ap, ◌∙◌, ◌==◌, string_eq, find?, map_get,
  map_get-set, map_get-delete, map_get-map,
}
use agent_workflow_fast_api.Conversations.Contract.{View, View-eq, Change, changed}
use agent_workflow_fast_api.Conversations.Mock.{
  MockDatabase, keys_of, set_parts, mock_get_chat_by_id, mock_get_messages_by_chat_id,
  mock_save_chat, mock_save_messages, mock_update_message, mock_delete_messages_after_timestamp,
  mock_update_chat_visibility, mock_update_chat_title, mock_delete_chat_by_id,
  mock_delete_all_chats_by_user_id,
}
use agent_workflow_fast_api.Conversations.Mock.Calls.{
  MockCall, save_chat_call, save_messages_call, update_message_call, delete_after_call,
  visibility_call, title_call, delete_chat_call, delete_all_call, apply, apply_all, empty,
  change_of, view,
}
use agent_workflow_fast_api.Conversations.Mock.Invariant.{
  IsConsistent, apply-IsConsistent, empty-IsConsistent,
}
use agent_workflow_fast_api.Conversations.Mock.Views.{
  found, found-if, found-map, view-save_each, view-change_chat, map_get-delete_keys,
  contains-keys_of, kept-holds, found-cut,
}

-- Each call in memory changes the view as it promises.
view-apply :
    (call : MockCall) (d : MockDatabase)
    → IsConsistent d
    → view (apply call d) ≡ changed (change_of call) (view d)
unfolding apply changed mock_save_chat mock_save_messages mock_update_message
    mock_delete_messages_after_timestamp mock_update_chat_visibility mock_update_chat_title
    mock_delete_chat_by_id mock_delete_all_chats_by_user_id
view-apply (save_chat_call item) d c =
    View-eq _ _ (λ id. map_get-set id item.id item d.chats)
      (λ chat_id id.
        ap (found id) (map_get-set chat_id item.id [] d.messages)
        ∙ found-if (item.id == chat_id) id _ _)
view-apply (save_messages_call items) d c = view-save_each items d.chats d.messages
view-apply (update_message_call id parts) d c =
    View-eq _ _ (λ k. refl)
      (λ chat_id key.
        ap (found key) (map_get-map (set_parts id parts) chat_id d.messages)
        ∙ found-map id parts key (map_get chat_id d.messages))
view-apply (delete_after_call cut_id timestamp) d c =
    View-eq _ _ (λ k. refl) (found-cut cut_id timestamp d c)
view-apply (visibility_call chat_id visibility) d c =
    view-change_chat (λ x. record x { visibility = visibility }) chat_id d
view-apply (title_call chat_id title) d c =
    view-change_chat (λ x. record x { title = title }) chat_id d
view-apply (delete_chat_call deleted) d c =
    View-eq _ _ (λ id. map_get-delete id deleted d.chats)
      (λ chat_id id.
        ap (found id) (map_get-delete chat_id deleted d.messages)
        ∙ found-if (deleted == chat_id) id none _)
view-apply (delete_all_call user_id) d c =
    View-eq _ _
      (λ id.
        map_get-delete_keys id (keys_of user_id d.chats) d.chats
        ∙ rw (contains-keys_of user_id id d.chats c.chats_keyed)
            (kept-holds (λ x. x.user_id == user_id) (map_get id d.chats)))
      (λ chat_id id.
        ap (found id) (map_get-delete_keys chat_id (keys_of user_id d.chats) d.messages)
        ∙ rw (contains-keys_of user_id chat_id d.chats c.chats_keyed) (found-if _ id none _))

abbrev pub changed_all : List Change → View → View
changed_all [] v = v
changed_all (change ∷ changes) v = changed_all changes (changed change v)

-- The view with no chats.
abbrev pub nothing : View
nothing = record { chat_of = λ id. none; message_of = λ chat_id id. none }

view-apply_all :
    (calls : List MockCall) (d : MockDatabase)
    → IsConsistent d
    → view (apply_all calls d) ≡ changed_all (map change_of calls) (view d)
view-apply_all [] d c = refl
view-apply_all (call ∷ calls) d c =
    view-apply_all calls (apply call d) (apply-IsConsistent call d c)
    ∙ ap (changed_all (map change_of calls)) (view-apply call d c)

-- After any calls from the start, `mockGetChatById` gives the chat that the contract of the calls says,
-- and the list of `mockGetMessagesByChatId` has under each id the message that it says.
pub mock_calls_refine :
    (calls : List MockCall) (chat_id message_id : String)
    → let d = apply_all calls empty in
      let v = changed_all (map change_of calls) nothing in
      (mock_get_chat_by_id chat_id d ≡ v.chat_of chat_id)
      × (find? (λ m. m.id == message_id) (mock_get_messages_by_chat_id chat_id d)
          ≡ v.message_of chat_id message_id)
unfolding mock_get_chat_by_id mock_get_messages_by_chat_id
mock_calls_refine calls chat_id message_id =
    let same = view-apply_all calls empty empty-IsConsistent in
    (ap (λ v. v.chat_of chat_id) same, ap (λ v. v.message_of chat_id message_id) same)
