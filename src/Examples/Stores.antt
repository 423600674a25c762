-- ===== src/Examples/Stores.antt =====
-- Calls on chats in memory and in a database.
use agent_workflow_fast_api.Base.{
  ℕ, List, [], ◌∷◌, some, ◌≡◌, refl, ◌==◌, string_eq, number_eq, find?, ok,
}
use agent_workflow_fast_api.Conversations.Contract.{changed}
use agent_workflow_fast_api.Conversations.Contract.Stored.{table_view, IsKept}
use agent_workflow_fast_api.Conversations.Contract.Calls.{TableCall, saving_messages, send, promise}
use agent_workflow_fast_api.Conversations.Contract.Refinement.{queries_refine}
use agent_workflow_fast_api.Conversations.Mock.{
  mock_get_chat_by_id, mock_get_messages_by_chat_id, mock_save_chat, mock_save_messages,
  mock_update_message, mock_delete_messages_after_timestamp, mock_update_chat_visibility,
  mock_update_chat_title, mock_delete_chat_by_id, mock_delete_all_chats_by_user_id,
  mock_get_message_count_by_user_id, put_message, save_message, set_parts,
}
use agent_workflow_fast_api.Conversations.Mock.Calls.{
  MockCall, save_chat_call, save_messages_call, delete_after_call, title_call, delete_all_call,
  apply, apply_all, empty,
}
use agent_workflow_fast_api.Conversations.Mock.Invariant.{IsConsistent, mock_calls-IsConsistent}
use agent_workflow_fast_api.Conversations.Mock.Refinement.{mock_calls_refine}
use agent_workflow_fast_api.Examples.Chats.{server, store, chat, message}

-- Two users' chats; a message is saved twice, and the first chat is cut off.
abbrev session : List MockCall
session =
    save_chat_call (chat "c1" "ann" 1)
    ∷ save_chat_call (chat "c2" "bob" 2)
    ∷ save_messages_call (message "m1" "c1" 4 ∷ message "m2" "c1" 6 ∷ message "m1" "c1" 3 ∷ [])
    ∷ delete_after_call "c1" 5
    ∷ title_call "c1" "Plans"
    ∷ delete_all_call "bob"
    ∷ []

-- Opens what the calls compute with.
in_memory : Unit {0}
unfolding apply changed mock_get_chat_by_id mock_get_messages_by_chat_id mock_save_chat
    mock_save_messages mock_update_message mock_delete_messages_after_timestamp
    mock_update_chat_visibility mock_update_chat_title mock_delete_chat_by_id
    mock_delete_all_chats_by_user_id mock_get_message_count_by_user_id put_message save_message
    set_parts
in_memory = tt

counted : ◌≡◌ {A = ℕ} (mock_get_message_count_by_user_id "ann" (apply_all session empty)) 1
unfolding in_memory
counted = refl

mock_calls_refine_example :
    (mock_get_chat_by_id "c1" (apply_all session empty)
      ≡ some (record (chat "c1" "ann" 1) { title = "Plans" }))
    × (find? (λ m. m.id == "m1") (mock_get_messages_by_chat_id "c1" (apply_all session empty))
        ≡ some (message "m1" "c1" 3))
unfolding in_memory
mock_calls_refine_example = mock_calls_refine session "c1" "m1"

mock_calls-IsConsistent_example : IsConsistent (apply_all session empty)
mock_calls-IsConsistent_example = mock_calls-IsConsistent session

abbrev new_messages : TableCall
new_messages = saving_messages (message "m4" "c1" 8 ∷ message "m5" "c3" 9 ∷ [])

queries_refine_example :
    ((send server new_messages store).0 ≡ ok tt)
    × (table_view (send server new_messages store).1.tables
        ≡ changed (promise server store new_messages) (table_view store.tables))
    × IsKept (send server new_messages store).1.tables
queries_refine_example =
    queries_refine server new_messages store (λ n. refl)
      (record {
        chats_apart = refl;
        messages_apart = refl;
        messages_placed = (refl, (refl, (refl, tt)));
      })
      (cc, refl, ((refl, refl), ((refl, refl), tt)))
