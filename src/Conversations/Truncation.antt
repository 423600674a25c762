-- ===== src/Conversations/Truncation.antt =====
-- frontend/src/lib/db/queries.ts: `deleteMessagesByChatIdAfterTimestamp` and
-- `deleteDocumentsByIdAfterTimestamp`, which cut a chat and the versions of a document off at a time.
use agent_workflow_fast_api.Base.{
  ℕ, suc, String, Bool, true, false, not, ◌&&◌, List, [], ◌∷◌, map, ◌≡◌, refl, subst, arith, ◌==◌,
  ==_iff, ==-refl, string_eq, number_eq, ltb, leb, filter, any, All, contains, distinct, ok,
}
use agent_workflow_fast_api.Conversations.Tables.{DbMessage, Document, Suggestion}
use agent_workflow_fast_api.Conversations.Statements.{
  Server, Store, wrapped, statement, delete_messages, delete_suggestions, delete_documents,
  refers_to,
}
use agent_workflow_fast_api.Conversations.Queries.{
  recent_in, delete_listed, delete_messages_by_chat_id_after_timestamp,
  delete_documents_by_id_after_timestamp,
}

abbrev pub message_ids : List DbMessage → List String
message_ids = map (λ m. m.id)

module _ (q : DbMessage → Bool) where
  not_listed :
      (ms : List DbMessage) (x : String)
      → contains (message_ids ms) x ≡ false
      → contains (message_ids (filter q ms)) x ≡ false
  not_listed [] x h = refl
  not_listed (m ∷ ms) x h = ground (arith, not_listed ms x)

  -- Among the rows, an id that is listed is that of a row that was selected.
  abbrev Listed : List DbMessage → DbMessage → Type 0
  Listed all m = contains (message_ids (filter q all)) m.id ≡ q m

  Listed-later :
      (x : DbMessage) (all ms : List DbMessage)
      → contains (message_ids ms) x.id ≡ false
      → All (Listed all) ms
      → All (Listed (x ∷ all)) ms
  Listed-later x all [] h k = tt
  Listed-later x all (m ∷ ms) h (k, ks) =
      (ground (arith, ==_iff m.id x.id, ==_iff x.id m.id), Listed-later x all ms (ground arith) ks)

  ids_of_selected : (ms : List DbMessage) → distinct (message_ids ms) ≡ true → All (Listed ms) ms
  ids_of_selected [] h = tt
  ids_of_selected (m ∷ ms) h =
      let apart : contains (message_ids ms) m.id ≡ false = ground arith in
      let rest : distinct (message_ids ms) ≡ true = ground arith in
      (
        ground (arith, not_listed ms m.id, ==-refl m.id),
        Listed-later m ms ms apart (ids_of_selected ms rest),
      )

  filter_by_ids :
      (chat_id : String) (all ms : List DbMessage)
      → ((m : DbMessage) → q m ≡ true → (m.chat_id == chat_id) ≡ true)
      → All (Listed all) ms
      → filter (λ m. not (m.chat_id == chat_id && contains (message_ids (filter q all)) m.id)) ms
        ≡ filter (λ m. not (q m)) ms
  filter_by_ids chat_id all [] h k = refl
  filter_by_ids chat_id all (m ∷ ms) h (k, ks) =
      ground (arith, filter_by_ids chat_id all ms h ks, h m)

-- If no id is listed, no row is selected.
none_recent :
    (q : DbMessage → Bool) (ms : List DbMessage)
    → message_ids (filter q ms) ≡ []
    → filter (λ m. not (q m)) ms ≡ ms
none_recent q [] h = refl
none_recent q (m ∷ ms) h = ground (arith, none_recent q ms)

delete_listed_lem :
    (p : Server) (chat_id : String) (q : DbMessage → Bool) (ids : List String) (s : Store)
    → ((n : ℕ) → p.online n ≡ true)
    → ((m : DbMessage) → q m ≡ true → (m.chat_id == chat_id) ≡ true)
    → distinct (message_ids s.tables.messages) ≡ true
    → message_ids (filter q s.tables.messages) ≡ ids
    → let r = wrapped (delete_listed p chat_id ids s) in
      (r.0 ≡ ok tt)
      × (r.1.tables ≡ record s.tables { messages = filter (λ m. not (q m)) s.tables.messages })
unfolding delete_listed statement delete_messages
delete_listed_lem p chat_id q [] s online h keyed e =
    (refl, rw (none_recent q s.tables.messages e) refl)
delete_listed_lem p chat_id q (id ∷ ids) s online h keyed e =
    let ms = s.tables.messages in
    let same =
      subst
        (λ l.
          filter (λ m. not (m.chat_id == chat_id && contains l m.id)) ms
          ≡ filter (λ m. not (q m)) ms)
        e (filter_by_ids q chat_id ms ms h (ids_of_selected q ms keyed)) in
    rw (online s.statements, same) (refl, refl)

-- If every statement is served and no two messages have the same id, cutting a chat off at a time
-- succeeds and takes exactly that chat's messages of that time or later from the tables.
pub delete_messages_by_chat_id_after_timestamp_lem :
    (p : Server) (chat_id : String) (timestamp : ℕ) (s : Store)
    → ((n : ℕ) → p.online n ≡ true)
    → distinct (message_ids s.tables.messages) ≡ true
    → let r = delete_messages_by_chat_id_after_timestamp p chat_id timestamp s in
      (r.0 ≡ ok tt)
      × (r.1.tables ≡ record s.tables {
        messages =
            filter
              (λ m. not (m.chat_id == chat_id && leb timestamp m.created_at))
              s.tables.messages;
      })
unfolding delete_messages_by_chat_id_after_timestamp statement
delete_messages_by_chat_id_after_timestamp_lem p chat_id timestamp s online keyed =
    rw (online s.statements) (
      delete_listed_lem p chat_id (recent_in p chat_id timestamp) _
        (record s { statements = suc s.statements }) online (λ m h. ground arith) keyed refl)

module _ (id : String) (timestamp : ℕ) (user_id : String) where
  abbrev cut_document : Document → Bool
  cut_document d = d.id == id && (d.user_id == user_id && ltb timestamp d.created_at)

  abbrev cut_suggestion : Suggestion → Bool
  cut_suggestion x = x.document_id == id && ltb timestamp x.document_created_at

  no_reference :
      (x : Suggestion) (ds : List Document)
      → cut_suggestion x ≡ false
      → any (refers_to x) (filter cut_document ds) ≡ false
  no_reference x [] h = refl
  no_reference x (d ∷ ds) h = ground (
    arith,
    no_reference x ds h,
    ==_iff x.document_id d.id,
    ==_iff x.document_created_at d.created_at,
    ==_iff d.id id,
    ==_iff x.document_id id,
  )

  no_references :
      (xs : List Suggestion) (ds : List Document)
      → any
          (λ x. any (refers_to x) (filter cut_document ds))
          (filter (λ x. not (cut_suggestion x)) xs)
        ≡ false
  no_references [] ds = refl
  no_references (x ∷ xs) ds = ground (arith, no_references xs ds, no_reference x ds)

-- If every statement is served, cutting a document off at a time succeeds whatever the tables hold:
-- it returns the user's versions that are later and takes exactly these from the tables, and the
-- suggestions for later versions of the document.
delete_documents_by_id_after_timestamp_lem :
    (p : Server) (id : String) (timestamp : ℕ) (user_id : String) (s : Store)
    → ((n : ℕ) → p.online n ≡ true)
    → let later =
        λ (d : Document). d.id == id && (d.user_id == user_id && ltb timestamp d.created_at) in
      let r = delete_documents_by_id_after_timestamp p id timestamp user_id s in
      (r.0 ≡ ok (filter later s.tables.documents))
      × (r.1.tables ≡ record s.tables {
        documents = filter (λ d. not (later d)) s.tables.documents;
        suggestions =
            filter
              (λ x. not (x.document_id == id && ltb timestamp x.document_created_at))
              s.tables.suggestions;
      })
unfolding delete_documents_by_id_after_timestamp statement delete_suggestions delete_documents
delete_documents_by_id_after_timestamp_lem p id timestamp user_id s online =
    rw
      (
        online s.statements,
        online (suc s.statements),
        no_references id timestamp user_id s.tables.suggestions s.tables.documents,
      )
      (refl, refl)
