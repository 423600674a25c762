-- ===== src/ChatHistory/Cache.antt =====
-- frontend/src/lib/backend/chatHistoryCache.ts: `upsertChatHistory`. The cache of the query client is
-- a function from keys to data; a key is the list of its parts.
use agent_workflow_fast_api.Base.{
  String, Bool, true, false, ◌||◌, List, [], ◌∷◌, ◌++◌, map, Option, none, some, ◌==◌, string_eq,
  if◌then◌else◌, any, get_or,
}

-- Times are left as the texts they are sent as; an optional field is absent in an entry that does
-- not have it.
pub record ChatHistoryEntry : Type 0 where
  pub created_at : String
  pub id : String
  pub title : String
  pub user_id : Option String
  pub visibility : String
  pub workspace_id : Option String

pub record ChatHistory : Type 0 where
  pub chats : List ChatHistoryEntry
  pub has_more : Bool

-- `InfiniteData<ChatHistory, string | null>`
pub record HistoryData : Type 0 where
  pub pages : List ChatHistory
  pub page_params : List (Option String)

-- What the query client holds: local chats under a key that ends in "local", pages under the key.
pub record QueryClient : Type 0 where
  pub local_chats : List String → Option (List ChatHistoryEntry)
  pub history : List String → Option HistoryData

abbrev pub get_local_chat_history_query_key : List String → List String
get_local_chat_history_query_key query_key = query_key ++ ("local" ∷ [])

-- A field of the spread that is absent keeps the value there was.
abbrev pub spread : Option String → Option String → Option String
spread existing none = existing
spread existing (some v) = some v

unfoldable pub merge_chat_history_entry :
    ChatHistoryEntry → ChatHistoryEntry → Bool → ChatHistoryEntry
merge_chat_history_entry existing chat replace_existing_title = record {
  created_at = existing.created_at;
  id = chat.id;
  title =
      if replace_existing_title || existing.title == "New chat" then chat.title else existing.title;
  user_id = spread existing.user_id chat.user_id;
  visibility = chat.visibility;
  workspace_id = spread existing.workspace_id chat.workspace_id;
}

-- The map over the local chats from the first one with the id.
unfoldable pub merge_first : ChatHistoryEntry → Bool → List ChatHistoryEntry → List ChatHistoryEntry
merge_first chat replace [] = []
merge_first chat replace (c ∷ cs) =
    if c.id == chat.id
    then merge_chat_history_entry c chat replace ∷ cs
    else c ∷ merge_first chat replace cs

abbrev pub has_entry : String → List ChatHistoryEntry → Bool
has_entry id = any (λ c. c.id == id)

unfoldable pub upsert_local :
    ChatHistoryEntry → Bool → List ChatHistoryEntry → List ChatHistoryEntry
upsert_local chat replace local_chats =
    if has_entry chat.id local_chats
    then merge_first chat replace local_chats
    else chat ∷ local_chats

abbrev pub merge_if : ChatHistoryEntry → Bool → ChatHistoryEntry → ChatHistoryEntry
merge_if chat replace c = if c.id == chat.id then merge_chat_history_entry c chat replace else c

abbrev pub merge_page : ChatHistoryEntry → Bool → ChatHistory → ChatHistory
merge_page chat replace page = record page { chats = map (merge_if chat replace) page.chats }

-- `foundExistingChat`
abbrev pub found_existing_chat : ChatHistoryEntry → List ChatHistory → Bool
found_existing_chat chat = any (λ page. has_entry chat.id page.chats)

abbrev pub add_to_pages : ChatHistoryEntry → List ChatHistory → List ChatHistory
add_to_pages chat [] = record { chats = chat ∷ []; has_more = false } ∷ []
add_to_pages chat (page ∷ pages) = record page { chats = chat ∷ page.chats } ∷ pages

abbrev pub existing_pages : Option HistoryData → List ChatHistory
existing_pages none = []
existing_pages (some d) = d.pages

-- The parameters of the pages, which are set anew where the first page is made.
abbrev pub kept_params : Option HistoryData → List (Option String)
kept_params none = none ∷ []
kept_params (some d) = d.page_params

abbrev pub new_params : List ChatHistory → Option HistoryData → List (Option String)
new_params [] d = none ∷ []
new_params (page ∷ pages) d = kept_params d

unfoldable pub upsert_pages : ChatHistoryEntry → Bool → Option HistoryData → HistoryData
upsert_pages chat replace cached =
    let pages = map (merge_page chat replace) (existing_pages cached) in
    if found_existing_chat chat (existing_pages cached)
    then record { pages = pages; page_params = kept_params cached }
    else record { pages = add_to_pages chat pages; page_params = new_params pages cached }

abbrev pub same_key : List String → List String → Bool
same_key [] [] = true
same_key (x ∷ xs) (y ∷ ys) = if x == y then same_key xs ys else false
same_key _ _ = false

-- `setQueryData`
abbrev pub set_at {ℓ} :
    {A : Type ℓ} → List String → A → (List String → Option A) → List String → Option A
set_at key value held k = if same_key k key then some value else held k

unfoldable pub upsert_chat_history :
    QueryClient → List String → ChatHistoryEntry → Bool → QueryClient
upsert_chat_history client query_key chat replace =
    let local_key = get_local_chat_history_query_key query_key in
    record {
      local_chats =
          set_at local_key (upsert_local chat replace (get_or (client.local_chats local_key) []))
            client.local_chats;
      history =
          set_at query_key (upsert_pages chat replace (client.history query_key)) client.history;
    }
