-- ===== src/Conversations/Contract/Writes.antt =====
-- frontend/src/lib/db/queries.ts: what the statements of the calls write.
use agent_workflow_fast_api.Base.{
  ℕ, String, true, false, not, ◌&&◌, List, [], ◌∷◌, ◌++◌, map, Option, none, some, ◌≡◌, refl, sym,
  ap, ◌∙◌, arith, ◌==◌, string_eq, if◌then◌else◌, any, any-append, contains, distinct, All, ==_iff,
  Result, ok, err, after, resolve, Bool-cases, Option-cases, inl, inr,
}
use agent_workflow_fast_api.Conversations.Tables.{Tables, Chat, DbMessage}
use agent_workflow_fast_api.Conversations.Errors.{ChatbotError}
use agent_workflow_fast_api.Conversations.Statements.{
  Server, Store, bad_request_database, caught, write, statement, insert_chat, insert_message,
  insert_values, insert_all,
}
use agent_workflow_fast_api.Conversations.Queries.{update_chats, update_chat_title_by_id}
use agent_workflow_fast_api.Conversations.Truncation.{message_ids}
use agent_workflow_fast_api.Conversations.Contract.{changed, saves_chat}
use agent_workflow_fast_api.Conversations.Contract.Stored.{table_view, IsKept, table_view-save_chat}

later_free :
    (m : DbMessage) (t : Tables) (items : List DbMessage)
    → contains (message_ids items) m.id ≡ false
    → All
        (λ n.
          (any (λ o. o.id == n.id) t.messages ≡ false)
          × (any (λ c. c.id == n.chat_id) t.chats ≡ true))
        items
    → All
        (λ n.
          (any (λ o. o.id == n.id) (t.messages ++ (m ∷ [])) ≡ false)
          × (any (λ c. c.id == n.chat_id) t.chats ≡ true))
        items
later_free m t [] h k = tt
later_free m t (n ∷ items) h (k, ks) = (
  (
    any-append (λ o. o.id == n.id) t.messages (m ∷ [])
        ∙ ground (arith, ==_iff m.id n.id, ==_iff n.id m.id),
    k.1,
  ),
  later_free m t items (ground arith) ks,
)

pub insert_all_lem :
    (items : List DbMessage) (t : Tables)
    → distinct (message_ids items) ≡ true
    → All
        (λ m.
          (any (λ n. n.id == m.id) t.messages ≡ false)
          × (any (λ c. c.id == m.chat_id) t.chats ≡ true))
        items
    → (u : Tables) × (insert_all insert_message items t ≡ some u)
unfolding insert_message
insert_all_lem [] t d h = (t, refl)
insert_all_lem (m ∷ items) t d ((free, placed), h) =
    let (u, stored) =
      insert_all_lem items (record t { messages = t.messages ++ (m ∷ []) }) (ground arith)
        (later_free m t items (ground arith) h) in
    (u, rw (insert_all, free, placed) stored)

module _ (p : Server) (online : (n : ℕ) → p.online n ≡ true) where
  -- A write that resolves was one that the keys allow.
  pub write_lem :
      (f : Tables → Option Tables) (s : Store)
      → (caught (write p f) s).0 ≡ ok tt
      → (u : Tables) × (f s.tables ≡ some u) × ((caught (write p f) s).1.tables ≡ u)
  unfolding statement
  write_lem f s e = elim (Option-cases (f s.tables)) [
    | inl refused ↦
        let never : ◌≡◌ {A = Result ChatbotError (Unit {0})} (err bad_request_database) (ok tt) =
          rw (online s.statements, refused) at e in
        cc
    | inr (u, kept) ↦ (u, kept, rw (online s.statements, kept) refl)
  ]

  pub tables-without_result :
      {A : Type 0} (r : Result ChatbotError A × Store) (a : A) (t : Tables)
      → r.0 ≡ ok a
      → r.1.tables ≡ t
      → (after r (λ a. resolve tt)).1.tables ≡ t
  tables-without_result (ok b, s) a t e h = h
  tables-without_result (err x, s) a t e h = cc

  pub insert_chat_lem :
      (c : Chat) (t u : Tables)
      → IsKept t
      → insert_chat p c t ≡ some u
      → table_view u ≡ changed (saves_chat c) (table_view t)
  unfolding insert_chat
  insert_chat_lem c t u k e =
      elim (Bool-cases (
        not (any (λ d. d.id == c.id) t.chats)
        && (p.has_user c.user_id && p.has_workspace c.workspace_id))) [
          | inl good ↦
              let known : some (record t { chats = t.chats ++ (c ∷ []) }) ≡ some u = rw good at e in
              let same : record t { chats = t.chats ++ (c ∷ []) } ≡ u = cc in
              ap table_view (sym same) ∙ table_view-save_chat c t k (ground arith)
          | inr bad ↦ let never : none ≡ some u = rw bad at e in cc
        ]

  pub insert_values_lem :
      (items : List DbMessage) (t u : Tables)
      → insert_values insert_message items t ≡ some u
      → insert_all insert_message items t ≡ some u
  insert_values_lem [] t u e = cc
  insert_values_lem (m ∷ items) t u e = e

  pub written_tables :
      (f : Tables → Option Tables) (s : Store) (u : Tables)
      → f s.tables ≡ some u
      → (caught (write p f) s).1.tables ≡ u
  unfolding statement
  written_tables f s u e = rw (online s.statements, e) refl

  pub titled_tables :
      (chat_id title : String) (s : Store)
      → (update_chat_title_by_id p chat_id title s).1.tables ≡ record s.tables {
        chats = map (λ c. if c.id == chat_id then record c { title = title } else c) s.tables.chats;
      }
  unfolding update_chat_title_by_id statement update_chats
  titled_tables chat_id title s = rw (online s.statements) refl
