-- ===== src/ChatHistory/Deletion.antt =====
-- frontend/src/components/chat/sidebarHistory.tsx: the list of chats after `handleDelete`.
use Prim.Native.String
use agent_workflow_fast_api.Base.{
  String, Bool, true, false, not, List, [], ◌∷◌, ◌++◌, map, Option, none, some, ◌≡◌, refl, ap, ◌∙◌,
  sym, subst, arith, ◌==◌, string_eq, ==_iff, ==-refl, filter, filter-append, contains, get_or,
  if◌then◌else◌, Result, ok, err, Bool-cases, inl, inr,
}
use agent_workflow_fast_api.Http.Urls.Params.{truthy}
use agent_workflow_fast_api.Http.Message.{Response}
use agent_workflow_fast_api.Http.Client.Fetch.{Platform}
use agent_workflow_fast_api.Http.Requests.Backend.{Requests, RequestError, Body, request_backend}
use agent_workflow_fast_api.ChatHistory.Cache.{
  ChatHistoryEntry, ChatHistory, HistoryData, QueryClient, get_local_chat_history_query_key,
  existing_pages, same_key,
}
use agent_workflow_fast_api.ChatHistory.Entries.{entries_of}
use agent_workflow_fast_api.ChatHistory.Sidebar.{
  Sidebar, chat_deleted, common_error, without, page_without, set_pages_without, set_local_without,
  remove_chat, chats_from_history, shown_chats, delete_input, delete_init, begin_delete, end_delete,
  handle_delete,
}

module _ (id : String) where
  -- A chat that is kept is among the ids of the others as before.
  ids-without :
      (chats : List ChatHistoryEntry) (other : String)
      → (other == id) ≡ false
      → contains (map (λ c. c.id) (without id chats)) other ≡ contains (map (λ c. c.id) chats) other
  ids-without [] other apart = refl
  ids-without (c ∷ cs) other apart =
      ground (arith, ids-without cs other apart, ==_iff c.id other, ==_iff c.id id)

  entries_of-without :
      (pages : List ChatHistory)
      → entries_of (map (page_without id) pages) ≡ without id (entries_of pages)
  entries_of-without [] = refl
  entries_of-without (page ∷ pages) =
      ap (◌++◌ (without id page.chats)) (entries_of-without pages)
      ∙ sym (filter-append (λ c. not (c.id == id)) page.chats (entries_of pages))

  merged-without :
      (local_chats chats : List ChatHistoryEntry)
      → filter
          (λ c. not (contains (map (λ c. c.id) (without id local_chats)) c.id))
          (without id chats)
        ≡ without id (filter (λ c. not (contains (map (λ c. c.id) local_chats) c.id)) chats)
  merged-without local_chats [] = refl
  merged-without local_chats (c ∷ cs) = elim (Bool-cases (c.id == id)) [
    | inl e ↦ ground (arith, merged-without local_chats cs)
    | inr e ↦ ground (arith, merged-without local_chats cs, ids-without local_chats c.id e)
  ]

  chats_from_history-without :
      (local_chats : List ChatHistoryEntry) (pages : List ChatHistory)
      → chats_from_history (without id local_chats) (map (page_without id) pages)
        ≡ without id (chats_from_history local_chats pages)
  unfolding chats_from_history
  chats_from_history-without local_chats pages = rw (entries_of-without pages) (
      ap (◌++◌ (without id local_chats)) (merged-without local_chats (entries_of pages))
      ∙ sym (filter-append (λ c. not (c.id == id)) local_chats _))

same_key_refl : (key : List String) → same_key key key ≡ true
same_key_refl [] = refl
same_key_refl (x ∷ xs) = rw (==-refl x) (same_key_refl xs)

module _ (key : List String) (id : String) (client : QueryClient) where
  local_chats-remove_chat :
      get_or ((remove_chat key id client).local_chats (get_local_chat_history_query_key key)) []
      ≡ without id (get_or (client.local_chats (get_local_chat_history_query_key key)) [])
  unfolding remove_chat
  local_chats-remove_chat = by_held (client.local_chats local_key) refl
    where
      local_key : List String
      local_key = get_local_chat_history_query_key key

      by_held :
          (held : Option (List ChatHistoryEntry))
          → client.local_chats local_key ≡ held
          → get_or (set_local_without local_key id held client.local_chats local_key) []
            ≡ without id (get_or held [])
      by_held none e = rw e refl
      by_held (some chats) e = rw (same_key_refl local_key) refl

  history-remove_chat :
      existing_pages ((remove_chat key id client).history key)
      ≡ map (page_without id) (existing_pages (client.history key))
  unfolding remove_chat
  history-remove_chat = by_held (client.history key) refl
    where
      by_held :
          (held : Option HistoryData)
          → client.history key ≡ held
          → existing_pages (set_pages_without key id held client.history key)
            ≡ map (page_without id) (existing_pages held)
      by_held none e = rw e refl
      by_held (some history) e = rw (same_key_refl key) refl

module _ (key : List String) (id : String) where
  -- How a deletion ends: the request was sent, the chat is gone from the list either way, and the
  -- dialog closes if the backend agreed.
  pub record IsDeleted (sent : Result RequestError Body × Requests) (before after : Sidebar)
      : Type 0 where
    pub shown : shown_chats key after ≡ without id (shown_chats key before)
    pub settled : after.is_deleting ≡ false
    pub dialog :
        after.show_delete_dialog
        ≡ (elim sent.0 [ ok body ↦ false | err e ↦ before.show_delete_dialog ])
    pub toasts :
        after.toasts
        ≡ (elim sent.0 [ ok body ↦ chat_deleted | err e ↦ common_error ]) ∷ before.toasts
    pub requests : after.requests ≡ sent.1
    pub pathname :
        after.pathname
        ≡ (if before.pathname == String.◌++◌ "/chat/" id then "/" else before.pathname)

  shown-remove_chat :
      (client : QueryClient)
      → chats_from_history
          (get_or
            ((remove_chat key id client).local_chats (get_local_chat_history_query_key key))
            [])
          (existing_pages ((remove_chat key id client).history key))
        ≡ without id (
            chats_from_history
              (get_or (client.local_chats (get_local_chat_history_query_key key)) [])
              (existing_pages (client.history key)))
  shown-remove_chat client =
      rw (local_chats-remove_chat key id client)
        (rw (history-remove_chat key id client) (chats_from_history-without id _ _))

  end_delete-IsDeleted :
      (p : Platform) (text_of : Response → String) (base_path : String)
      (sent : Result RequestError Body × Requests) (s : Sidebar)
      → IsDeleted sent s
          (end_delete p text_of base_path key sent (begin_delete p text_of base_path key id s))
  unfolding end_delete begin_delete shown_chats
  end_delete-IsDeleted p text_of base_path (ok body, r) s = record {
    shown = shown-remove_chat s.client;
    settled = refl;
    dialog = refl;
    toasts = refl;
    requests = refl;
    pathname = refl;
  }
  end_delete-IsDeleted p text_of base_path (err e, r) s = record {
    shown = shown-remove_chat s.client;
    settled = refl;
    dialog = refl;
    toasts = refl;
    requests = refl;
    pathname = refl;
  }

-- If a chat is chosen and no deletion is under way, `handleDelete` sends the request, and whether it
-- succeeds or fails, the list then shows the same chats in the same order without the chosen one, no
-- deletion is under way, the page of the chosen chat is left, a toast tells the outcome, and the dialog
-- closes if the request succeeded.
pub handle_delete-IsDeleted :
    (p : Platform) (text_of : Response → String) (base_path : String) (key : List String)
    (timeout_triggered : Bool) (id : String) (s : Sidebar)
    → truthy s.delete_id ≡ some id
    → s.is_deleting ≡ false
    → IsDeleted key id
        (request_backend p text_of timeout_triggered
          (delete_input p text_of base_path key id)
          delete_init
          s.requests)
        s
        (handle_delete p text_of base_path key timeout_triggered s)
unfolding handle_delete
handle_delete-IsDeleted p text_of base_path key timeout id s chosen free =
    let sent =
      request_backend p text_of timeout (delete_input p text_of base_path key id) delete_init
        s.requests in
    let done =
      end_delete p text_of base_path key sent (begin_delete p text_of base_path key id s) in
    rw chosen (
      subst (λ b. IsDeleted key id sent s (if b then s else done)) (sym free)
        (end_delete-IsDeleted key id p text_of base_path sent s))
