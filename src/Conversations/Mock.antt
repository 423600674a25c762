-- ===== src/Conversations/Mock.antt =====
-- frontend/src/lib/db/mock.ts: the chats and messages that are kept in memory. The time is a
-- parameter. What a call returns is its value at that time: the arrays and rows that it shares with the
-- maps are not followed further.
pub mod Lists
pub mod Calls
pub mod Invariant
pub mod Views
pub mod Refinement
use agent_workflow_fast_api.Base.{
  ℕ, zero, ◌+◌, String, Bool, true, false, not, List, [], ◌∷◌, map, Option, none, some, ◌==◌,
  string_eq, ltb, if◌then◌else◌, length, filter, find?, take, get_or, Map, map_get, map_set,
  map_delete,
}
use agent_workflow_fast_api.Conversations.Tables.{Chat, DbMessage, VisibilityType}
use agent_workflow_fast_api.Database.Sorting.{descending}

-- `chats` and `messages`.
pub record MockDatabase : Type 0 where
  pub chats : Map Chat
  pub messages : Map (List DbMessage)

-- `messages.get(id) ?? []`
abbrev pub messages_of : String → MockDatabase → List DbMessage
messages_of id d = get_or (map_get id d.messages) []

unfoldable pub mock_save_chat : Chat → MockDatabase → List Chat × MockDatabase
mock_save_chat item d = (
  item ∷ [],
  record { chats = map_set item.id item d.chats; messages = map_set item.id [] d.messages },
)

unfoldable pub mock_get_chat_by_id : String → MockDatabase → Option Chat
mock_get_chat_by_id id d = map_get id d.chats

-- `[...chats.values()]`
abbrev pub values {ℓ} : {A : Type ℓ} → Map A → List A
values m = map (λ e. e.1) m

-- The chats of a page, and whether there are more.
unfoldable pub mock_get_chats_by_user_id : String → ℕ → MockDatabase → List Chat × Bool
mock_get_chats_by_user_id id limit d = (
  take limit (descending Chat (λ c. c.created_at) (filter (λ c. c.user_id == id) (values d.chats))),
  false,
)

-- The keys of the chats of a user.
abbrev pub keys_of : String → Map Chat → List String
keys_of user_id chats = map (λ e. e.0) (filter (λ e. e.1.user_id == user_id) chats)

abbrev pub delete_keys {ℓ} : {A : Type ℓ} → List String → Map A → Map A
delete_keys [] m = m
delete_keys (k ∷ ks) m = delete_keys ks (map_delete k m)

-- Deleting an entry while the loop runs over the map skips no other.
unfoldable pub mock_delete_all_chats_by_user_id : String → MockDatabase → ℕ × MockDatabase
mock_delete_all_chats_by_user_id user_id d =
    let ids = keys_of user_id d.chats in
    (length ids, record { chats = delete_keys ids d.chats; messages = delete_keys ids d.messages })

-- `current[index] = item` where there is one with the same id, or `current.push(item)`.
unfoldable pub put_message : DbMessage → List DbMessage → List DbMessage
put_message item [] = item ∷ []
put_message item (existing ∷ current) =
    if existing.id == item.id then item ∷ current else existing ∷ put_message item current

unfoldable pub save_message : DbMessage → Map (List DbMessage) → Map (List DbMessage)
save_message item m = map_set item.chat_id (put_message item (get_or (map_get item.chat_id m) [])) m

abbrev pub save_each : List DbMessage → Map (List DbMessage) → Map (List DbMessage)
save_each [] m = m
save_each (item ∷ items) m = save_each items (save_message item m)

unfoldable pub mock_save_messages : List DbMessage → MockDatabase → List DbMessage × MockDatabase
unfolding save_message
mock_save_messages items d = (items, record d { messages = save_each items d.messages })

-- The first message with the id, changed.
unfoldable pub set_parts : String → String → List DbMessage → List DbMessage
set_parts id parts [] = []
set_parts id parts (m ∷ items) =
    if m.id == id then record m { parts = parts } ∷ items else m ∷ set_parts id parts items

unfoldable pub mock_update_message : String → String → MockDatabase → MockDatabase
mock_update_message id parts d = record d {
  messages = map (λ e. (e.0, set_parts id parts e.1)) d.messages;
}

unfoldable pub mock_get_messages_by_chat_id : String → MockDatabase → List DbMessage
mock_get_messages_by_chat_id id d = messages_of id d

abbrev pub first_message : String → Map (List DbMessage) → List DbMessage
first_message id [] = []
first_message id ((k, items) ∷ rest) = elim (find? (λ m. m.id == id) items) [
  | none ↦ first_message id rest
  | some item ↦ item ∷ []
]

unfoldable pub mock_get_message_by_id : String → MockDatabase → List DbMessage
mock_get_message_by_id id d = first_message id d.messages

unfoldable pub mock_delete_messages_after_timestamp : String → ℕ → MockDatabase → MockDatabase
mock_delete_messages_after_timestamp chat_id timestamp d =
    let remaining = filter (λ m. ltb m.created_at timestamp) (messages_of chat_id d) in
    record d { messages = map_set chat_id remaining d.messages }

-- A chat that is there, changed in its place.
abbrev pub change_chat : (Chat → Chat) → String → Map Chat → Map Chat
change_chat f id m = elim (map_get id m) [ none ↦ m | some item ↦ map_set id (f item) m ]

unfoldable pub mock_update_chat_visibility : String → VisibilityType → MockDatabase → MockDatabase
mock_update_chat_visibility chat_id visibility d = record d {
  chats = change_chat (λ c. record c { visibility = visibility }) chat_id d.chats;
}

unfoldable pub mock_update_chat_title : String → String → MockDatabase → MockDatabase
mock_update_chat_title chat_id title d = record d {
  chats = change_chat (λ c. record c { title = title }) chat_id d.chats;
}

-- The messages of the role `user` in the chats of the user.
abbrev pub count_in : String → MockDatabase → List Chat → ℕ
count_in id d [] = 0
count_in id d (c ∷ chats) =
    let rest = count_in id d chats in
    if c.user_id == id
    then length (filter (λ m. m.role == "user") (messages_of c.id d)) + rest
    else rest

unfoldable pub mock_get_message_count_by_user_id : String → MockDatabase → ℕ
mock_get_message_count_by_user_id id d = count_in id d (values d.chats)

unfoldable pub mock_delete_chat_by_id : String → MockDatabase → MockDatabase
mock_delete_chat_by_id id d = record {
  chats = map_delete id d.chats;
  messages = map_delete id d.messages;
}
