-- ===== src/Conversations/Contract.antt =====
-- frontend/src/lib/db/queries.ts and mock.ts: what the calls that change chats and messages promise,
-- whether the rows are kept in a database or in memory. A view forgets their order.
pub mod Rows
pub mod Stored
pub mod Calls
pub mod Writes
pub mod Keys
pub mod Resolves
pub mod Kept
pub mod Refinement
use mathlib.Core.Path.{ap₂, fun_ext}
use mathlib.Core.Option
use agent_workflow_fast_api.Base.{
  ℕ, String, Bool, true, false, not, ◌&&◌, List, [], ◌∷◌, Option, none, some, ◌≡◌, ◌==◌, string_eq,
  ltb, if◌then◌else◌, kept,
}
use agent_workflow_fast_api.Conversations.Tables.{Chat, DbMessage, VisibilityType}

-- The chat of an id, and the message of a chat's id and an id of its own.
pub record View : Type 0 where
  pub chat_of : String → Option Chat
  pub message_of : String → String → Option DbMessage

pub View-eq :
    (v w : View)
    → ((id : String) → v.chat_of id ≡ w.chat_of id)
    → ((chat_id id : String) → v.message_of chat_id id ≡ w.message_of chat_id id)
    → v ≡ w
View-eq v w chats messages =
    ap₂ (λ c m. record { chat_of = c; message_of = m }) (fun_ext chats)
      (fun_ext (λ c. fun_ext (messages c)))

-- The calls that change something. All chats that a test selects are deleted at once.
pub data Change : Type 0 where
  saves_chat : Chat → Change
  saves_messages : List DbMessage → Change
  updates_message : String → String → Change
  cuts_messages : String → ℕ → Change
  sets_visibility : String → VisibilityType → Change
  sets_title : String → String → Change
  deletes_chat : String → Change
  deletes_chats : (Chat → Bool) → Change

abbrev pub holds {ℓ} : {A : Type ℓ} → (A → Bool) → Option A → Bool
holds q none = false
holds q (some a) = q a

abbrev pub with_message : DbMessage → View → View
with_message item v = record v {
  message_of = λ chat_id id.
      if item.chat_id == chat_id && item.id == id then some item else v.message_of chat_id id;
}

abbrev pub with_messages : List DbMessage → View → View
with_messages [] v = v
with_messages (item ∷ items) v = with_messages items (with_message item v)

abbrev pub with_chat : (Chat → Chat) → String → View → View
with_chat f chat_id v = record v {
  chat_of = λ id. if chat_id == id then Option.map f (v.chat_of id) else v.chat_of id;
}

-- What a view becomes: a chat is saved with no messages, and deleted with all of its messages.
unfoldable pub changed : Change → View → View
changed (saves_chat c) v = record {
  chat_of = λ id. if c.id == id then some c else v.chat_of id;
  message_of = λ chat_id id. if c.id == chat_id then none else v.message_of chat_id id;
}
changed (saves_messages items) v = with_messages items v
changed (updates_message message_id parts) v = record v {
  message_of = λ chat_id id.
      if message_id == id
      then Option.map {A = DbMessage} (λ m. record m { parts = parts }) (v.message_of chat_id id)
      else v.message_of chat_id id;
}
changed (cuts_messages cut_id timestamp) v = record v {
  message_of = λ chat_id id.
      if cut_id == chat_id
      then kept (λ m. ltb m.created_at timestamp) (v.message_of chat_id id)
      else v.message_of chat_id id;
}
changed (sets_visibility chat_id visibility) v =
    with_chat (λ c. record c { visibility = visibility }) chat_id v
changed (sets_title chat_id title) v = with_chat (λ c. record c { title = title }) chat_id v
changed (deletes_chat deleted) v = record {
  chat_of = λ id. if deleted == id then none else v.chat_of id;
  message_of = λ chat_id id. if deleted == chat_id then none else v.message_of chat_id id;
}
changed (deletes_chats q) v = record {
  chat_of = λ id. kept (λ c. not (q c)) (v.chat_of id);
  message_of = λ chat_id id. if holds q (v.chat_of chat_id) then none else v.message_of chat_id id;
}
