-- ===== src/Conversations/Paging.antt =====
-- frontend/src/lib/db/queries.ts: `getChatsByUserId`, a page of the user's chats, newest first.
use Prim.Native.String
use agent_workflow_fast_api.Base.{
  ℕ, ◌+◌, String, Bool, true, false, ◌&&◌, List, Option, none, some, ◌==◌, string_eq, ltb,
  if◌then◌else◌, length, filter, head?, take, resolve, throw, ◌>>=◌,
}
use agent_workflow_fast_api.Http.Urls.Params.{truthy}
use agent_workflow_fast_api.Conversations.Tables.{Tables, Chat}
use agent_workflow_fast_api.Conversations.Statements.{
  Server, raised, Query, Call, not_found_database, caught, select,
}
use agent_workflow_fast_api.Conversations.Queries.{owned_by}

-- Where the page begins: after or before the time of a chat, or anywhere.
pub data Bound : Type 0 where
  newer_than older_than : ℕ → Bound
  unbounded : Bound

unfoldable pub within : Bound → Chat → Bool
within (newer_than time) c = ltb time c.created_at
within (older_than time) c = ltb c.created_at time
within unbounded c = true

pub record ChatPage : Type 0 where
  pub chats : List Chat
  pub has_more : Bool

-- The page from the rows of the query, of which there are at most one more than the limit.
unfoldable pub page_of : ℕ → List Chat → ChatPage
page_of limit rows =
    if ltb limit (length rows)
    then record { chats = take limit rows; has_more = true }
    else record { chats = rows; has_more = false }

module _ (p : Server) (id workspace_id : String) where
  abbrev pub in_bound : Bound → Chat → Bool
  in_bound bound c = within bound c && owned_by id workspace_id c

  abbrev pub sorted_rows : Bound → Tables → List Chat
  sorted_rows bound t = p.engine.desc Chat (λ c. c.created_at) (filter (in_bound bound) t.chats)

  unfoldable pub query_chats : ℕ → Bound → Query (List Chat)
  query_chats limit bound = select p (λ t. take (limit + 1) (sorted_rows bound t))

  abbrev pub found_or_thrown : String → (ℕ → Bound) → Option Chat → Query Bound
  found_or_thrown cursor bound none =
      throw (
        raised (not_found_database (String.◌++◌ "Chat with id " (String.◌++◌ cursor " not found"))))
  found_or_thrown cursor bound (some c) = resolve (bound c.created_at)

  -- The chat that a cursor names has to be the user's.
  unfoldable pub bound_at : String → (ℕ → Bound) → Query Bound
  bound_at cursor bound = do
    selected ←
        select p (λ t. take 1 (filter (λ c. c.id == cursor && owned_by id workspace_id c) t.chats))
    found_or_thrown cursor bound (head? selected)

  unfoldable pub choose_bound : Option String → Option String → Query Bound
  choose_bound (some cursor) ending_before = bound_at cursor newer_than
  choose_bound none (some cursor) = bound_at cursor older_than
  choose_bound none none = resolve unbounded

  unfoldable pub get_chats_by_user_id : ℕ → Option String → Option String → Call ChatPage
  get_chats_by_user_id limit starting_after ending_before = caught (do
    bound ← choose_bound (truthy starting_after) (truthy ending_before)
    filtered_chats ← query_chats limit bound
    resolve (page_of limit filtered_chats))
