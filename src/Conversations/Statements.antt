-- ===== src/Conversations/Statements.antt =====
-- The statements that frontend/src/lib/db/queries.ts sends, with the keys of schema.ts. The server
-- is a parameter: it may refuse any statement. A primary or foreign key that a statement would break
-- refuses it too. No transaction holds the statements of a call together.
use agent_workflow_fast_api.Base.{
  ℕ, suc, String, Bool, true, false, not, ◌&&◌, ◌||◌, List, [], ◌∷◌, ◌++◌, map, Option, none, some,
  ◌==◌, string_eq, number_eq, if◌then◌else◌, filter, any, contains, Result, ok, err, Io,
}
use agent_workflow_fast_api.Database.Engine.{Engine}
use agent_workflow_fast_api.Conversations.Errors.{ChatbotError, bad_request, not_found, database}
use agent_workflow_fast_api.Conversations.Tables.{
  Tables, Chat, DbMessage, Document, Suggestion, Stream,
}

-- Whether the n-th statement is served, the time when it is sent, and the rows of the user and
-- workspace tables.
pub record Server : Type 1 where
  pub engine : Engine
  pub online : ℕ → Bool
  pub now : ℕ → ℕ
  pub has_user : String → Bool
  pub has_workspace : String → Bool

pub record Store : Type 0 where
  pub tables : Tables
  pub statements : ℕ

-- The driver's error, or one that the code throws itself.
pub data Failure : Type 0 where
  rejected : Failure
  raised : ChatbotError → Failure

abbrev pub Query : Type 0 → Type 0
Query = Io Store Failure

abbrev pub Call : Type 0 → Type 0
Call = Io Store ChatbotError

abbrev pub bad_request_database : ChatbotError
bad_request_database = record { type = bad_request; surface = database; cause = none }

abbrev pub not_found_database : String → ChatbotError
not_found_database cause = record { type = not_found; surface = database; cause = some cause }

-- `catch (error) { throw new ChatbotError("bad_request:database", …) }`
abbrev pub wrapped {ℓ} : {A : Type ℓ} → Result Failure A × Store → Result ChatbotError A × Store
wrapped (ok a, s) = (ok a, s)
wrapped (err e, s) = (err bad_request_database, s)

abbrev pub caught : {A : Type 0} → Query A → Call A
caught m s = wrapped (m s)

-- The same, after `if (error instanceof ChatbotError) throw error`.
abbrev pub rethrown {ℓ} : {A : Type ℓ} → Result Failure A × Store → Result ChatbotError A × Store
rethrown (ok a, s) = (ok a, s)
rethrown (err rejected, s) = (err bad_request_database, s)
rethrown (err (raised e), s) = (err e, s)

abbrev pub caught_others : {A : Type 0} → Query A → Call A
caught_others m s = rethrown (m s)

module _ (p : Server) where
  abbrev pub answer : {A : Type 0} → Bool → Option (A × Tables) → Store → Result Failure A × Store
  answer true (some (a, t)) s = (ok a, record { tables = t; statements = suc s.statements })
  answer true none s = (err rejected, record s { statements = suc s.statements })
  answer false o s = (err rejected, record s { statements = suc s.statements })

  -- One statement: rows and the new tables, or nothing where a key would break.
  unfoldable pub statement : {A : Type 0} → (Tables → Option (A × Tables)) → Query A
  statement f s = answer (p.online s.statements) (f s.tables) s

  abbrev pub select : {A : Type 0} → (Tables → A) → Query A
  select f = statement (λ t. some (f t, t))

  abbrev pub write : (Tables → Option Tables) → Query (Unit {0})
  write f = statement (λ t. elim (f t) [ none ↦ none | some u ↦ some (tt, u) ])

  unfoldable pub insert_chat : Chat → Tables → Option Tables
  insert_chat c t =
      if not (any (λ d. d.id == c.id) t.chats)
        && (p.has_user c.user_id && p.has_workspace c.workspace_id)
      then some (record t { chats = t.chats ++ (c ∷ []) })
      else none

  unfoldable pub insert_document : Document → Tables → Option (List Document × Tables)
  insert_document d t =
      if not (any (λ e. e.id == d.id && (e.created_at == d.created_at)) t.documents)
        && (p.has_user d.user_id && p.has_workspace d.workspace_id)
      then some (d ∷ [], record t { documents = t.documents ++ (d ∷ []) })
      else none

  unfoldable pub insert_suggestion : Suggestion → Tables → Option Tables
  insert_suggestion x t =
      if not (any (λ y. y.id == x.id) t.suggestions)
        && (any (λ d. d.id == x.document_id && (d.created_at == x.document_created_at)) t.documents
            && p.has_user x.user_id)
      then some (record t { suggestions = t.suggestions ++ (x ∷ []) })
      else none

unfoldable pub insert_message : DbMessage → Tables → Option Tables
insert_message m t =
    if not (any (λ n. n.id == m.id) t.messages) && any (λ c. c.id == m.chat_id) t.chats
    then some (record t { messages = t.messages ++ (m ∷ []) })
    else none

unfoldable pub insert_stream : Stream → Tables → Option Tables
insert_stream x t =
    if not (any (λ y. y.id == x.id) t.streams) && any (λ c. c.id == x.chat_id) t.chats
    then some (record t { streams = t.streams ++ (x ∷ []) })
    else none

-- One `insert` of many rows stores all of them or none.
abbrev pub insert_all {ℓ} :
    {A : Type ℓ} → (A → Tables → Option Tables) → List A → Tables → Option Tables
insert_all f [] t = some t
insert_all f (x ∷ xs) t = elim (f x t) [ none ↦ none | some u ↦ insert_all f xs u ]

-- `.values([])` throws.
abbrev pub insert_values {ℓ} :
    {A : Type ℓ} → (A → Tables → Option Tables) → List A → Tables → Option Tables
insert_values f [] t = none
insert_values f (x ∷ xs) t = insert_all f (x ∷ xs) t

unfoldable pub delete_messages : (DbMessage → Bool) → Tables → Option Tables
delete_messages q t = some (record t { messages = filter (λ m. not (q m)) t.messages })

unfoldable pub delete_streams : (Stream → Bool) → Tables → Option Tables
delete_streams q t = some (record t { streams = filter (λ m. not (q m)) t.streams })

unfoldable pub delete_suggestions : (Suggestion → Bool) → Tables → Option Tables
delete_suggestions q t = some (record t { suggestions = filter (λ m. not (q m)) t.suggestions })

-- Whether a message or a stream refers to one of the chats.
unfoldable pub chat_in_use : List String → Tables → Bool
chat_in_use ids t =
    any (λ m. contains ids m.chat_id) t.messages || any (λ x. contains ids x.chat_id) t.streams

abbrev pub chat_ids : List Chat → List String
chat_ids = map (λ c. c.id)

unfoldable pub delete_chats : (Chat → Bool) → Tables → Option (List Chat × Tables)
delete_chats q t =
    if chat_in_use (chat_ids (filter q t.chats)) t
    then none
    else some (filter q t.chats, record t { chats = filter (λ c. not (q c)) t.chats })

abbrev pub refers_to : Suggestion → Document → Bool
refers_to x d = x.document_id == d.id && (x.document_created_at == d.created_at)

unfoldable pub delete_documents : (Document → Bool) → Tables → Option (List Document × Tables)
delete_documents q t =
    if any (λ x. any (refers_to x) (filter q t.documents)) t.suggestions
    then none
    else some (filter q t.documents, record t { documents = filter (λ d. not (q d)) t.documents })
