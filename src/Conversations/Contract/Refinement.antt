-- ===== src/Conversations/Contract/Refinement.antt =====
-- frontend/src/lib/db/queries.ts: that the calls on a database do what the contract of the chats says.
use agent_workflow_fast_api.Base.{ℕ, true, ◌≡◌, refl, ap, ◌∙◌, ◌==◌, string_eq, ok}
use agent_workflow_fast_api.Conversations.Statements.{
  Server, Store, insert_chat, insert_message, insert_values,
}
use agent_workflow_fast_api.Conversations.Queries.{
  owned_by, update_messages, update_chats, save_chat, save_messages, update_message,
  update_chat_visibility_by_id,
}
use agent_workflow_fast_api.Conversations.Deletion.{
  delete_chat_by_id_lem, delete_all_chats_by_user_id_lem,
}
use agent_workflow_fast_api.Conversations.Truncation.{
  delete_messages_by_chat_id_after_timestamp_lem,
}
use agent_workflow_fast_api.Conversations.Contract.{changed}
use agent_workflow_fast_api.Conversations.Contract.Stored.{
  table_view, IsKept, table_view-insert_all, table_view-update, table_view-change, table_view-cut,
  table_view-delete, table_view-delete_all,
}
use agent_workflow_fast_api.Conversations.Contract.Calls.{
  TableCall, saving_chat, saving_messages, updating_message, cutting_messages, setting_visibility,
  setting_title, deleting_chat, deleting_chats, send, promise, Allowed,
}
use agent_workflow_fast_api.Conversations.Contract.Writes.{
  write_lem, tables-without_result, insert_chat_lem, insert_values_lem, written_tables,
  titled_tables,
}
use agent_workflow_fast_api.Conversations.Contract.Resolves.{send_resolves}
use agent_workflow_fast_api.Conversations.Contract.Kept.{send-IsKept}

module _ (p : Server) (online : (n : ℕ) → p.online n ≡ true) where
  send_refines :
      (call : TableCall) (s : Store)
      → IsKept s.tables
      → (send p call s).0 ≡ ok tt
      → table_view (send p call s).1.tables ≡ changed (promise p s call) (table_view s.tables)
  unfolding send save_chat save_messages update_message update_messages update_chats
      update_chat_visibility_by_id changed
  send_refines (saving_chat id user_id title visibility workspace_id) s k e =
      let (u, stored, same) = write_lem p online (insert_chat p _) s e in
      ap table_view same ∙ insert_chat_lem p online _ s.tables u k stored
  send_refines (saving_messages items) s k e =
      let (u, stored, same) = write_lem p online (insert_values insert_message items) s e in
      ap table_view same
      ∙ table_view-insert_all items s.tables u (insert_values_lem p online items s.tables u stored)
  send_refines (updating_message id parts) s k e =
      ap table_view (
        written_tables p online
          (update_messages (λ m. m.id == id) (λ m. record m { parts = parts })) s _ refl)
      ∙ table_view-update id parts s.tables
  send_refines (cutting_messages chat_id timestamp) s k e =
      ap table_view
        (delete_messages_by_chat_id_after_timestamp_lem p chat_id timestamp s online
          k.messages_apart).1
      ∙ table_view-cut chat_id timestamp s.tables k
  send_refines (setting_visibility chat_id visibility) s k e =
      ap table_view (
        written_tables p online
          (update_chats (λ c. c.id == chat_id) (λ c. record c { visibility = visibility })) s _
          refl)
      ∙ table_view-change (λ c. record c { visibility = visibility }) chat_id s.tables (λ c. refl)
  send_refines (setting_title chat_id title) s k e =
      ap table_view (titled_tables p online chat_id title s)
      ∙ table_view-change (λ c. record c { title = title }) chat_id s.tables (λ c. refl)
  send_refines (deleting_chat id) s k e =
      let (result, left) = delete_chat_by_id_lem p id s online in
      ap table_view (tables-without_result p online _ _ _ result left)
      ∙ table_view-delete id s.tables
  send_refines (deleting_chats user_id workspace_id) s k e =
      let (result, left) = delete_all_chats_by_user_id_lem p user_id workspace_id s online in
      ap table_view (tables-without_result p online _ _ _ result left)
      ∙ table_view-delete_all (owned_by user_id workspace_id) s.tables k

-- If every statement is served, the tables keep their keys and a call asks for nothing that the keys
-- forbid, then the call resolves, the chats and messages that stand under their ids in the tables are
-- afterwards those that the contract of the calls says, and the tables still keep their keys.
pub queries_refine :
    (p : Server) (call : TableCall) (s : Store)
    → ((n : ℕ) → p.online n ≡ true)
    → IsKept s.tables
    → Allowed p s.tables call
    → ((send p call s).0 ≡ ok tt)
      × (table_view (send p call s).1.tables ≡ changed (promise p s call) (table_view s.tables))
      × IsKept (send p call s).1.tables
queries_refine p call s online k a =
    let resolved = send_resolves p online call s k a in
    (resolved, send_refines p online call s k resolved, send-IsKept p online call s k resolved)
