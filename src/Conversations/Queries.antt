-- ===== src/Conversations/Queries.antt =====
-- frontend/src/lib/db/queries.ts with a database (`isMockDatabase` is false): the calls on chats,
-- messages, streams, documents and suggestions. Those that list chats by page are in Paging.
use agent_workflow_fast_api.Base.{
  ℕ, ◌-◌, ◌*◌, String, Bool, true, ◌&&◌, List, [], ◌∷◌, map, Option, none, some, ◌==◌, string_eq,
  number_eq, ltb, leb, if◌then◌else◌, length, filter, head?, any, take, contains, Result, ok,
  resolve, throw, ◌>>=◌, ◌>>◌,
}
use agent_workflow_fast_api.Conversations.Tables.{
  Tables, Chat, DbMessage, Document, Suggestion, Stream, VisibilityType, ArtifactKind,
}
use agent_workflow_fast_api.Conversations.Statements.{
  Server, Store, Failure, raised, Query, Call, not_found_database, caught, caught_others, select,
  write, statement, insert_chat, insert_document, insert_suggestion, insert_message, insert_stream,
  insert_values, delete_messages, delete_streams, delete_suggestions, delete_chats,
  delete_documents, chat_ids,
}

-- The rows of the table that a test selects, changed.
unfoldable pub update_messages :
    (DbMessage → Bool) → (DbMessage → DbMessage) → Tables → Option Tables
update_messages q f t = some (record t { messages = map (λ m. if q m then f m else m) t.messages })

unfoldable pub update_chats : (Chat → Bool) → (Chat → Chat) → Tables → Option Tables
update_chats q f t = some (record t { chats = map (λ c. if q c then f c else c) t.chats })

unfoldable pub update_documents :
    (Document → Bool) → (Document → Document) → Tables → Option (List Document × Tables)
update_documents q f t = some (
  map f (filter q t.documents),
  record t { documents = map (λ d. if q d then f d else d) t.documents },
)

-- `eq(chat.userId, id)` and `eq(chat.workspaceId, workspaceId)`
unfoldable pub owned_by : String → String → Chat → Bool
owned_by user_id workspace_id c = c.user_id == user_id && c.workspace_id == workspace_id

module _ (p : Server) where
  unfoldable pub save_chat : String → String → String → VisibilityType → String → Call (Unit {0})
  save_chat id user_id title visibility workspace_id s =
      caught
        (write p (
          insert_chat p (record {
            created_at = p.now s.statements;
            id = id;
            title = title;
            user_id = user_id;
            visibility = visibility;
            workspace_id = workspace_id;
          })))
        s

  unfoldable pub delete_chat_by_id : String → Call (Option Chat)
  delete_chat_by_id id = caught (do
    write p (delete_messages (λ m. m.chat_id == id))
    write p (delete_streams (λ x. x.chat_id == id))
    chats_deleted ← statement p (delete_chats (λ c. c.id == id))
    resolve (head? chats_deleted))

  -- The deletions once the chats of the user are known.
  unfoldable pub delete_chats_of : String → String → List String → Query ℕ
  delete_chats_of user_id workspace_id ids = do
    write p (delete_messages (λ m. contains ids m.chat_id))
    write p (delete_streams (λ x. contains ids x.chat_id))
    deleted_chats ← statement p (delete_chats (owned_by user_id workspace_id))
    resolve (length deleted_chats)

  unfoldable pub delete_unless_none : String → String → List String → Query ℕ
  delete_unless_none user_id workspace_id [] = resolve 0
  delete_unless_none user_id workspace_id (id ∷ ids) =
      delete_chats_of user_id workspace_id (id ∷ ids)

  unfoldable pub delete_all_chats_by_user_id : String → String → Call ℕ
  delete_all_chats_by_user_id user_id workspace_id = caught (do
    chats ← select p (λ t. chat_ids (filter (owned_by user_id workspace_id) t.chats))
    delete_unless_none user_id workspace_id chats)

  unfoldable pub get_chat_by_id : String → Call (Option Chat)
  get_chat_by_id id = caught (select p (λ t. head? (filter (λ c. c.id == id) t.chats)))

  unfoldable pub save_messages : List DbMessage → Call (Unit {0})
  save_messages messages = caught (write p (insert_values insert_message messages))

  unfoldable pub update_message : String → String → Call (Unit {0})
  update_message id parts =
      caught (write p (update_messages (λ m. m.id == id) (λ m. record m { parts = parts })))

  unfoldable pub get_messages_by_chat_id : String → Call (List DbMessage)
  get_messages_by_chat_id id = caught (
      select p (λ t.
        p.engine.asc DbMessage (λ m. m.created_at) (filter (λ m. m.chat_id == id) t.messages)))

  unfoldable pub save_document :
      String → String → ArtifactKind → String → String → String → Call (List Document)
  save_document id title kind content user_id workspace_id s =
      caught
        (statement p (
          insert_document p (record {
            content = some content;
            created_at = p.now s.statements;
            id = id;
            kind = kind;
            title = title;
            user_id = user_id;
            workspace_id = workspace_id;
          })))
        s

  -- The versions of a document that belong to the user, newest first.
  abbrev pub versions_of : String → String → Tables → List Document
  versions_of id user_id t =
      p.engine.desc Document (λ d. d.created_at)
        (filter (λ d. d.id == id && d.user_id == user_id) t.documents)

  unfoldable pub update_latest : String → String → String → Option Document → Query (List Document)
  update_latest id content user_id none = throw (raised (not_found_database "Document not found"))
  update_latest id content user_id (some latest) = statement p (
      update_documents
        (λ d. d.id == id && (d.created_at == latest.created_at && d.user_id == user_id))
        (λ d. record d { content = some content }))

  unfoldable pub update_document_content : String → String → String → Call (List Document)
  update_document_content id content user_id = caught_others (do
    docs ← select p (λ t. take 1 (versions_of id user_id t))
    update_latest id content user_id (head? docs))

  -- `userId ? eq(document.userId, userId) : undefined`
  abbrev pub belongs_to : Option String → Document → Bool
  belongs_to none d = true
  belongs_to (some user_id) d = if user_id == "" then true else d.user_id == user_id

  unfoldable pub get_documents_by_id : String → Option String → Call (List Document)
  get_documents_by_id id user_id = caught (
      select p (λ t.
        p.engine.asc Document (λ d. d.created_at)
          (filter (λ d. d.id == id && belongs_to user_id d) t.documents)))

  unfoldable pub get_document_by_id : String → Call (Option Document)
  get_document_by_id id = caught (
      select p (λ t.
        head? (p.engine.desc Document (λ d. d.created_at) (filter (λ d. d.id == id) t.documents))))

  unfoldable pub delete_documents_by_id_after_timestamp : String → ℕ → String → Call (List Document)
  delete_documents_by_id_after_timestamp id timestamp user_id = caught (do
    write p (delete_suggestions (λ x. x.document_id == id && ltb timestamp x.document_created_at))
    statement p (
        delete_documents (λ d. d.id == id && (d.user_id == user_id && ltb timestamp d.created_at))))

  unfoldable pub save_suggestions : List Suggestion → Call (Unit {0})
  save_suggestions suggestions = caught (write p (insert_values (insert_suggestion p) suggestions))

  unfoldable pub get_suggestions_by_document_id : String → Call (List Suggestion)
  get_suggestions_by_document_id document_id =
      caught (select p (λ t. filter (λ x. x.document_id == document_id) t.suggestions))

  unfoldable pub get_message_by_id : String → Call (List DbMessage)
  get_message_by_id id = caught (select p (λ t. filter (λ m. m.id == id) t.messages))

  abbrev pub recent_in : String → ℕ → DbMessage → Bool
  recent_in chat_id timestamp m = m.chat_id == chat_id && leb timestamp m.created_at

  -- No statement is sent for an empty list of ids.
  unfoldable pub delete_listed : String → List String → Query (Unit {0})
  delete_listed chat_id [] = resolve tt
  delete_listed chat_id (id ∷ ids) =
      write p (delete_messages (λ m. m.chat_id == chat_id && contains (id ∷ ids) m.id))

  unfoldable pub delete_messages_by_chat_id_after_timestamp : String → ℕ → Call (Unit {0})
  delete_messages_by_chat_id_after_timestamp chat_id timestamp = caught (do
    message_ids ← select p (λ t. map (λ m. m.id) (filter (recent_in chat_id timestamp) t.messages))
    delete_listed chat_id message_ids)

  unfoldable pub update_chat_visibility_by_id : String → VisibilityType → Call (Unit {0})
  update_chat_visibility_by_id chat_id visibility =
      caught
        (write p (update_chats (λ c. c.id == chat_id) (λ c. record c { visibility = visibility })))

  abbrev pub ignoring {ℓ} :
      {A : Type ℓ} → Result Failure A × Store → Result Failure (Unit {0}) × Store
  ignoring (r, s) = (ok tt, s)

  -- A failure is dropped: the title is updated with best effort.
  unfoldable pub update_chat_title_by_id : String → String → Call (Unit {0})
  update_chat_title_by_id chat_id title = caught (λ s.
      ignoring (write p (update_chats (λ c. c.id == chat_id) (λ c. record c { title = title })) s))

  -- An inner join: `chat.id` is a primary key, so that a message counts once.
  unfoldable pub sent_since : String → ℕ → Tables → DbMessage → Bool
  sent_since user_id cutoff t m =
      any (λ c. c.id == m.chat_id && c.user_id == user_id) t.chats
      && (leb cutoff m.created_at && m.role == "user")

  unfoldable pub get_message_count_by_user_id : String → ℕ → Call ℕ
  get_message_count_by_user_id id difference_in_hours s =
      caught
        (select p (λ t. length (
          filter (sent_since id (p.now s.statements - difference_in_hours * 60 * 60 * 1000) t)
            t.messages)))
        s

  unfoldable pub create_stream_id : String → String → Call (Unit {0})
  create_stream_id stream_id chat_id s =
      caught
        (write p (
          insert_stream
            (record { chat_id = chat_id; created_at = p.now s.statements; id = stream_id })))
        s

  unfoldable pub get_stream_ids_by_chat_id : String → Call (List String)
  get_stream_ids_by_chat_id chat_id = caught (do
    stream_ids ← select p (λ t.
        p.engine.asc Stream (λ x. x.created_at) (filter (λ x. x.chat_id == chat_id) t.streams))
    resolve (map (λ x. x.id) stream_ids))
