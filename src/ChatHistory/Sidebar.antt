-- ===== src/ChatHistory/Sidebar.antt =====
-- frontend/src/components/chat/sidebarHistory.tsx: the state behind the list of chats, what it shows and
-- its handlers. The calendar of date-fns is a parameter: a test of a time for each group.
use Prim.Native.String
use agent_workflow_fast_api.Base.{
  String, Bool, true, false, not, ◌&&◌, List, [], ◌∷◌, ◌++◌, map, Option, none, some, ◌==◌,
  string_eq, if◌then◌else◌, filter, any, get_or, contains, Result, ok, err,
}
use agent_workflow_fast_api.Http.Urls.Params.{Params, truthy, params_set}
use agent_workflow_fast_api.Http.Urls.Mapping.{Address}
use agent_workflow_fast_api.Http.Message.{Response, RequestInit, Input, url}
use agent_workflow_fast_api.Http.Client.Fetch.{Platform}
use agent_workflow_fast_api.Http.Requests.Backend.{Requests, RequestError, Body, request_backend}
use agent_workflow_fast_api.ChatHistory.Cache.{
  ChatHistoryEntry, ChatHistory, HistoryData, QueryClient, get_local_chat_history_query_key,
  existing_pages, set_at,
}
use agent_workflow_fast_api.ChatHistory.Entries.{entries_of}

-- The tests of `groupChatsByDate`, on a time as it is sent.
pub record Calendar : Type 0 where
  pub is_today : String → Bool
  pub is_yesterday : String → Bool
  pub is_within_week : String → Bool
  pub is_within_month : String → Bool

pub record GroupedChats : Type 0 where
  pub today : List ChatHistoryEntry
  pub yesterday : List ChatHistoryEntry
  pub last_week : List ChatHistoryEntry
  pub last_month : List ChatHistoryEntry
  pub older : List ChatHistoryEntry

abbrev pub no_groups : GroupedChats
no_groups = record { today = []; yesterday = []; last_week = []; last_month = []; older = [] }

module _ (calendar : Calendar) where
  -- One step of the `reduce`.
  unfoldable pub add_to_group : GroupedChats → ChatHistoryEntry → GroupedChats
  add_to_group groups chat =
      if calendar.is_today chat.created_at
      then record groups { today = groups.today ++ (chat ∷ []) }
      else if calendar.is_yesterday chat.created_at
      then record groups { yesterday = groups.yesterday ++ (chat ∷ []) }
      else if calendar.is_within_week chat.created_at
      then record groups { last_week = groups.last_week ++ (chat ∷ []) }
      else if calendar.is_within_month chat.created_at
      then record groups { last_month = groups.last_month ++ (chat ∷ []) }
      else record groups { older = groups.older ++ (chat ∷ []) }

  abbrev pub reduce_groups : GroupedChats → List ChatHistoryEntry → GroupedChats
  reduce_groups groups [] = groups
  reduce_groups groups (chat ∷ chats) = reduce_groups (add_to_group groups chat) chats

  unfoldable pub group_chats_by_date : List ChatHistoryEntry → GroupedChats
  group_chats_by_date chats = reduce_groups no_groups chats

abbrev pub last_id : List ChatHistoryEntry → Option String
last_id [] = none
last_id (chat ∷ []) = some chat.id
last_id (chat ∷ next ∷ chats) = last_id (next ∷ chats)

unfoldable pub get_next_page_param : ChatHistory → Option String
get_next_page_param page = if page.has_more then last_id page.chats else none

abbrev pub with_cursor : Option String → Params → Params
with_cursor none params = params
with_cursor (some id) params = params_set "ending_before" id params

-- `path`, below the base path
unfoldable pub history_address : String → Option String → Address
history_address base_path ending_before = record {
  pathname = String.◌++◌ base_path "/api/history";
  query = with_cursor (truthy ending_before) (("limit", "20") ∷ []);
}

-- The chats of the browser, then those of the pages that are not among them.
unfoldable pub chats_from_history : List ChatHistoryEntry → List ChatHistory → List ChatHistoryEntry
chats_from_history local_chats pages =
    let local_chat_ids = map (λ chat. chat.id) local_chats in
    local_chats ++ filter (λ chat. not (contains local_chat_ids chat.id)) (entries_of pages)

abbrev pub any_last : Option HistoryData → Bool
any_last none = false
any_last (some data_now) = any (λ page. not page.has_more) data_now.pages

unfoldable pub has_reached_end : Option HistoryData → Bool
has_reached_end history = any_last history

pub data Toast : Type 0 where
  chat_deleted common_error : Toast

-- `toasts` has the newest first; `pathname` is the page that the router shows.
pub record Sidebar : Type 0 where
  pub client : QueryClient
  pub requests : Requests
  pub pathname : String
  pub delete_id : Option String
  pub is_deleting : Bool
  pub show_delete_dialog : Bool
  pub toasts : List Toast

unfoldable pub handle_show_delete_dialog : String → Sidebar → Sidebar
handle_show_delete_dialog chat_id s = record s {
  delete_id = some chat_id;
  show_delete_dialog = true;
}

-- Whether `handleViewportEnter` fetches a page.
unfoldable pub fetches_next_page : Bool → Option HistoryData → Bool
unfolding has_reached_end
fetches_next_page is_validating history = not is_validating && not (has_reached_end history)

abbrev pub without : String → List ChatHistoryEntry → List ChatHistoryEntry
without id = filter (λ chat. not (chat.id == id))

-- `setQueryData`, which sets nothing where the updater gives nothing.
abbrev pub page_without : String → ChatHistory → ChatHistory
page_without id page = record page { chats = without id page.chats }

abbrev pub set_pages_without :
    List String
    → String
    → Option HistoryData
    → (List String → Option HistoryData)
    → List String
    → Option HistoryData
set_pages_without key id none held = held
set_pages_without key id (some history) held =
    set_at key (record history { pages = map (page_without id) history.pages }) held

abbrev pub set_local_without :
    List String
    → String
    → Option (List ChatHistoryEntry)
    → (List String → Option (List ChatHistoryEntry))
    → List String
    → Option (List ChatHistoryEntry)
set_local_without key id none held = held
set_local_without key id (some chats) held = set_at key (without id chats) held

unfoldable pub remove_chat : List String → String → QueryClient → QueryClient
remove_chat key id client =
    let local_key = get_local_chat_history_query_key key in
    record {
      local_chats =
          set_local_without local_key id (client.local_chats local_key) client.local_chats;
      history = set_pages_without key id (client.history key) client.history;
    }

abbrev pub delete_init : RequestInit
delete_init = record { method = some "DELETE"; headers = none; credentials = none; body = none }

module _ (p : Platform) (text_of : Response → String) (base_path : String)
    (history_query_key : List String) where
  abbrev pub delete_input : String → Input
  delete_input id =
      url (record { pathname = String.◌++◌ base_path "/api/chat"; query = ("id", id) ∷ [] })

  -- What happens before the request is sent.
  unfoldable pub begin_delete : String → Sidebar → Sidebar
  begin_delete id s = record s {
    is_deleting = true;
    pathname = if s.pathname == String.◌++◌ "/chat/" id then "/" else s.pathname;
    client = remove_chat history_query_key id s.client;
  }

  -- What happens when it has settled.
  unfoldable pub end_delete : Result RequestError Body × Requests → Sidebar → Sidebar
  end_delete (ok body, requests) s = record s {
    requests = requests;
    toasts = chat_deleted ∷ s.toasts;
    show_delete_dialog = false;
    is_deleting = false;
  }
  end_delete (err e, requests) s = record s {
    requests = requests;
    toasts = common_error ∷ s.toasts;
    is_deleting = false;
  }

  abbrev pub delete_chosen : Bool → Option String → Sidebar → Sidebar
  delete_chosen timeout_triggered none s = s
  delete_chosen timeout_triggered (some id) s =
      if s.is_deleting
      then s
      else end_delete
          (request_backend p text_of timeout_triggered (delete_input id) delete_init s.requests)
          (begin_delete id s)

  -- The flag says whether the timer of the request fires before it settles.
  unfoldable pub handle_delete : Bool → Sidebar → Sidebar
  handle_delete timeout_triggered s = delete_chosen timeout_triggered (truthy s.delete_id) s

-- What the list shows.
unfoldable pub shown_chats : List String → Sidebar → List ChatHistoryEntry
shown_chats key s =
    chats_from_history (get_or (s.client.local_chats (get_local_chat_history_query_key key)) [])
      (existing_pages (s.client.history key))
