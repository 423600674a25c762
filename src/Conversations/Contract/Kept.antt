-- ===== src/Conversations/Contract/Kept.antt =====
-- frontend/src/lib/db/queries.ts: that the calls keep the keys of chats and messages.
use agent_workflow_fast_api.Base.{
  true, not, ◌&&◌, ◌++◌, none, sym, subst, any, arith, ==_iff, Bool-cases, inl, inr, ℕ, true, [],
  ◌∷◌, some, ◌≡◌, refl, ◌==◌, string_eq, ok,
}
use agent_workflow_fast_api.Conversations.Tables.{Tables}
use agent_workflow_fast_api.Conversations.Statements.{
  Server, Store, insert_chat, insert_message, insert_values,
}
use agent_workflow_fast_api.Conversations.Queries.{
  owned_by, update_messages, update_chats, save_chat, save_messages, update_message,
  update_chat_visibility_by_id,
}
use agent_workflow_fast_api.Conversations.Deletion.{
  delete_chat_by_id_lem, delete_all_chats_by_user_id_lem,
}
use agent_workflow_fast_api.Conversations.Truncation.{
  delete_messages_by_chat_id_after_timestamp_lem,
}
use agent_workflow_fast_api.Conversations.Tables.{Chat}
use agent_workflow_fast_api.Conversations.Contract.Stored.{IsKept}
use agent_workflow_fast_api.Conversations.Contract.Calls.{
  TableCall, saving_chat, saving_messages, updating_message, cutting_messages, setting_visibility,
  setting_title, deleting_chat, deleting_chats, send,
}
use agent_workflow_fast_api.Conversations.Contract.Writes.{
  write_lem, tables-without_result, insert_values_lem, written_tables, titled_tables,
}
use agent_workflow_fast_api.Conversations.Contract.Keys.{
  IsKept-save_chat, IsKept-insert_all, IsKept-update, IsKept-change, IsKept-cut,
  IsKept-without_chats,
}
use agent_workflow_fast_api.Conversations.Deletion.{contains-chat_ids}

module _ (p : Server) (online : (n : ℕ) → p.online n ≡ true) where
  insert_chat-IsKept : (c : Chat) (t u : Tables) → IsKept t → insert_chat p c t ≡ some u → IsKept u
  unfolding insert_chat
  insert_chat-IsKept c t u k e =
      elim (Bool-cases (
        not (any (λ d. d.id == c.id) t.chats)
        && (p.has_user c.user_id && p.has_workspace c.workspace_id))) [
          | inl good ↦
              let known : some (record t { chats = t.chats ++ (c ∷ []) }) ≡ some u = rw good at e in
              let same : record t { chats = t.chats ++ (c ∷ []) } ≡ u = cc in
              subst IsKept same (IsKept-save_chat c t k (ground arith))
          | inr bad ↦ let never : none ≡ some u = rw bad at e in cc
        ]

  pub send-IsKept :
      (call : TableCall) (s : Store)
      → IsKept s.tables
      → (send p call s).0 ≡ ok tt
      → IsKept (send p call s).1.tables
  unfolding send save_chat save_messages update_message update_messages update_chats
      update_chat_visibility_by_id
  send-IsKept (saving_chat id user_id title visibility workspace_id) s k e =
      let (u, stored, same) = write_lem p online (insert_chat p _) s e in
      subst IsKept (sym same) (insert_chat-IsKept _ s.tables u k stored)
  send-IsKept (saving_messages items) s k e =
      let (u, stored, same) = write_lem p online (insert_values insert_message items) s e in
      subst IsKept (sym same)
        (IsKept-insert_all items s.tables u k (insert_values_lem p online items s.tables u stored))
  send-IsKept (updating_message id parts) s k e =
      subst IsKept
        (sym (
          written_tables p online
            (update_messages (λ m. m.id == id) (λ m. record m { parts = parts })) s _ refl))
        (IsKept-update id parts s.tables k)
  send-IsKept (cutting_messages chat_id timestamp) s k e =
      subst IsKept
        (sym
          (delete_messages_by_chat_id_after_timestamp_lem p chat_id timestamp s online
            k.messages_apart).1)
        (IsKept-cut _ s.tables k)
  send-IsKept (setting_visibility chat_id visibility) s k e =
      subst IsKept
        (sym (
          written_tables p online
            (update_chats (λ c. c.id == chat_id) (λ c. record c { visibility = visibility })) s _
            refl))
        (IsKept-change (λ c. record c { visibility = visibility }) chat_id s.tables (λ c. refl) k)
  send-IsKept (setting_title chat_id title) s k e =
      subst IsKept (sym (titled_tables p online chat_id title s))
        (IsKept-change (λ c. record c { title = title }) chat_id s.tables (λ c. refl) k)
  send-IsKept (deleting_chat id) s k e =
      let (result, left) = delete_chat_by_id_lem p id s online in
      subst IsKept (sym (tables-without_result p online _ _ _ result left)) (
        IsKept-without_chats (λ c. c.id == id) (id ∷ []) s.tables
          (λ x h. ground (arith, contains-chat_ids id s.tables.chats x h, ==_iff x id, ==_iff id x))
          k)
  send-IsKept (deleting_chats user_id workspace_id) s k e =
      let (result, left) = delete_all_chats_by_user_id_lem p user_id workspace_id s online in
      subst IsKept (sym (tables-without_result p online _ _ _ result left))
        (IsKept-without_chats (owned_by user_id workspace_id) _ s.tables (λ x h. h) k)
