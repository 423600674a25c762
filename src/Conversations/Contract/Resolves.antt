-- ===== src/Conversations/Contract/Resolves.antt =====
-- frontend/src/lib/db/queries.ts: that the calls resolve.
use agent_workflow_fast_api.Base.{
  ℕ, true, List, [], ◌∷◌, Option, some, ◌≡◌, refl, string_eq, ◌≢◌, Result, ok, err, after, resolve,
}
use agent_workflow_fast_api.Conversations.Tables.{Tables, DbMessage}
use agent_workflow_fast_api.Conversations.Errors.{ChatbotError}
use agent_workflow_fast_api.Conversations.Statements.{
  Server, Store, caught, write, statement, insert_chat, insert_message, insert_values, insert_all,
}
use agent_workflow_fast_api.Conversations.Queries.{
  update_messages, update_chats, save_chat, save_messages, update_message,
  update_chat_visibility_by_id, update_chat_title_by_id,
}
use agent_workflow_fast_api.Conversations.Deletion.{
  delete_chat_by_id_lem, delete_all_chats_by_user_id_lem,
}
use agent_workflow_fast_api.Conversations.Truncation.{
  delete_messages_by_chat_id_after_timestamp_lem,
}
use agent_workflow_fast_api.Conversations.Contract.Stored.{IsKept}
use agent_workflow_fast_api.Conversations.Contract.Calls.{
  TableCall, saving_chat, saving_messages, updating_message, cutting_messages, setting_visibility,
  setting_title, deleting_chat, deleting_chats, send, Allowed,
}
use agent_workflow_fast_api.Conversations.Contract.Writes.{insert_all_lem}

module _ (p : Server) (online : (n : ℕ) → p.online n ≡ true) where
  written_result :
      (f : Tables → Option Tables) (s : Store) (u : Tables)
      → f s.tables ≡ some u
      → (caught (write p f) s).0 ≡ ok tt
  unfolding statement
  written_result f s u e = rw (online s.statements, e) refl

  result-without_result :
      {A : Type 0} (r : Result ChatbotError A × Store) (a : A)
      → r.0 ≡ ok a
      → (after r (λ a. resolve tt)).0 ≡ ok tt
  result-without_result (ok b, s) a e = refl
  result-without_result (err x, s) a e = cc

  insert_values-some :
      (items : List DbMessage) (t u : Tables)
      → items ≢ []
      → insert_all insert_message items t ≡ some u
      → insert_values insert_message items t ≡ some u
  insert_values-some [] t u n e = absurd (n refl)
  insert_values-some (m ∷ items) t u n e = e

  pub send_resolves :
      (call : TableCall) (s : Store)
      → IsKept s.tables
      → Allowed p s.tables call
      → (send p call s).0 ≡ ok tt
  unfolding send save_chat save_messages update_message update_messages update_chats
      update_chat_visibility_by_id update_chat_title_by_id insert_chat statement
  send_resolves (saving_chat id user_id title visibility workspace_id) s k
        (free, known_user, known_workspace) =
      rw (online s.statements, free, known_user, known_workspace) refl
  send_resolves (saving_messages items) s k (present, apart, h) =
      let (u, stored) = insert_all_lem items s.tables apart h in
      written_result (insert_values insert_message items) s u
        (insert_values-some items s.tables u present stored)
  send_resolves (updating_message id parts) s k a = rw (online s.statements) refl
  send_resolves (cutting_messages chat_id timestamp) s k a =
      (delete_messages_by_chat_id_after_timestamp_lem p chat_id timestamp s online
        k.messages_apart).0
  send_resolves (setting_visibility chat_id visibility) s k a = rw (online s.statements) refl
  send_resolves (setting_title chat_id title) s k a = refl
  send_resolves (deleting_chat id) s k a =
      result-without_result _ _ (delete_chat_by_id_lem p id s online).0
  send_resolves (deleting_chats user_id workspace_id) s k a =
      result-without_result _ _ (delete_all_chats_by_user_id_lem p user_id workspace_id s online).0
