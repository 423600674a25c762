-- ===== src/ChatHistory/Repeat.antt =====
-- frontend/src/lib/backend/chatHistoryCache.ts: `upsertChatHistory` twice with the same chat.
use agent_workflow_fast_api.Base.{
  String, Bool, true, List, [], ◌∷◌, map, Option, none, some, ◌≡◌, refl, ap, arith, ◌==◌, ==-refl,
  string_eq, Bool-cases, inl, inr,
}
use agent_workflow_fast_api.ChatHistory.Cache.{
  ChatHistoryEntry, ChatHistory, HistoryData, QueryClient, get_local_chat_history_query_key, spread,
  merge_chat_history_entry, merge_first, has_entry, upsert_local, merge_if, merge_page,
  found_existing_chat, add_to_pages, existing_pages, upsert_pages, upsert_chat_history,
}
use agent_workflow_fast_api.ChatHistory.Entries.{same_key_refl}

spread_twice : (a b : Option String) → spread (spread a b) b ≡ spread a b
spread_twice a none = refl
spread_twice a (some x) = refl

spread_self : (a : Option String) → spread a a ≡ a
spread_self none = refl
spread_self (some x) = refl

module _ (chat : ChatHistoryEntry) (replace : Bool) where
  merge_twice :
      (c : ChatHistoryEntry)
      → merge_chat_history_entry (merge_chat_history_entry c chat replace) chat replace
        ≡ merge_chat_history_entry c chat replace
  unfolding merge_chat_history_entry
  merge_twice c =
      rw (spread_twice c.user_id chat.user_id, spread_twice c.workspace_id chat.workspace_id)
        (ground arith)

  merge_self : merge_chat_history_entry chat chat replace ≡ chat
  unfolding merge_chat_history_entry
  merge_self = rw (spread_self chat.user_id, spread_self chat.workspace_id) (ground arith)

  merge_if_twice :
      (c : ChatHistoryEntry)
      → merge_if chat replace (merge_if chat replace c) ≡ merge_if chat replace c
  unfolding merge_chat_history_entry
  merge_if_twice c = elim (Bool-cases (c.id == chat.id)) [
    | inl e ↦ rw (e, ==-refl chat.id) (merge_twice c)
    | inr e ↦ rw (e, e) refl
  ]

  merge_if_self : merge_if chat replace chat ≡ chat
  merge_if_self = rw (==-refl chat.id) merge_self

  map_twice :
      (cs : List ChatHistoryEntry)
      → map (merge_if chat replace) (map (merge_if chat replace) cs)
        ≡ map (merge_if chat replace) cs
  map_twice [] = refl
  map_twice (c ∷ cs) = rw (merge_if_twice c, map_twice cs) refl

  pages_twice :
      (pages : List ChatHistory)
      → map (merge_page chat replace) (map (merge_page chat replace) pages)
        ≡ map (merge_page chat replace) pages
  pages_twice [] = refl
  pages_twice (page ∷ pages) = rw (map_twice page.chats, pages_twice pages) refl

  merge_first_has :
      (cs : List ChatHistoryEntry)
      → has_entry chat.id (merge_first chat replace cs) ≡ has_entry chat.id cs
  unfolding merge_first merge_chat_history_entry
  merge_first_has [] = refl
  merge_first_has (c ∷ cs) = ground (arith, merge_first_has cs, ==-refl chat.id)

  merged_id :
      (c : ChatHistoryEntry) → ((merge_chat_history_entry c chat replace).id == chat.id) ≡ true
  unfolding merge_chat_history_entry
  merged_id c = ==-refl chat.id

  merge_first_twice :
      (cs : List ChatHistoryEntry)
      → merge_first chat replace (merge_first chat replace cs) ≡ merge_first chat replace cs
  unfolding merge_first
  merge_first_twice [] = refl
  merge_first_twice (c ∷ cs) = elim (Bool-cases (c.id == chat.id)) [
    | inl e ↦ rw e (ground (arith, merge_twice c, merged_id c))
    | inr e ↦ rw (e, e) (ap (λ r. c ∷ r) (merge_first_twice cs))
  ]

  upsert_local_twice :
      (cs : List ChatHistoryEntry)
      → upsert_local chat replace (upsert_local chat replace cs) ≡ upsert_local chat replace cs
  unfolding upsert_local merge_first
  upsert_local_twice cs = elim (Bool-cases (has_entry chat.id cs)) [
    | inl e ↦ rw (e, merge_first_has cs, e) (merge_first_twice cs)
    | inr e ↦ rw (e, ==-refl chat.id) (ap (λ c. c ∷ cs) merge_self)
  ]

  merge_if_has :
      (cs : List ChatHistoryEntry)
      → has_entry chat.id (map (merge_if chat replace) cs) ≡ has_entry chat.id cs
  unfolding merge_chat_history_entry
  merge_if_has [] = refl
  merge_if_has (c ∷ cs) = ground (arith, merge_if_has cs, ==-refl chat.id)

  found_after :
      (pages : List ChatHistory)
      → found_existing_chat chat (map (merge_page chat replace) pages)
        ≡ found_existing_chat chat pages
  found_after [] = refl
  found_after (page ∷ pages) = rw (merge_if_has page.chats, found_after pages) refl

  add_found : (pages : List ChatHistory) → found_existing_chat chat (add_to_pages chat pages) ≡ true
  add_found [] = rw (==-refl chat.id) refl
  add_found (page ∷ pages) = rw (==-refl chat.id) refl

  first_chats : List ChatHistory → List ChatHistoryEntry
  first_chats [] = []
  first_chats (page ∷ pages) = page.chats

  later_pages : List ChatHistory → List ChatHistory
  later_pages [] = []
  later_pages (page ∷ pages) = pages

  add_again :
      (pages : List ChatHistory)
      → map (merge_page chat replace) pages ≡ pages
      → map (merge_page chat replace) (add_to_pages chat pages) ≡ add_to_pages chat pages
  unfolding first_chats later_pages
  add_again [] h = rw merge_if_self refl
  add_again (page ∷ pages) h = rw (merge_if_self, ap first_chats h, ap later_pages h) refl

  upsert_pages_twice :
      (cached : Option HistoryData)
      → upsert_pages chat replace (some (upsert_pages chat replace cached))
        ≡ upsert_pages chat replace cached
  unfolding upsert_pages
  upsert_pages_twice cached =
      let old = existing_pages cached in
      elim (Bool-cases (found_existing_chat chat old)) [
        | inl e ↦ rw (e, found_after old, e, pages_twice old) refl
        | inr e ↦
            rw
              (
                e,
                add_found (map (merge_page chat replace) old),
                add_again (map (merge_page chat replace) old) (pages_twice old),
              )
              refl
      ]

-- Calling `upsertChatHistory` again with the same chat and key changes neither the local chats nor the
-- pages of the key.
upsert_chat_history_twice :
    (client : QueryClient) (query_key : List String) (chat : ChatHistoryEntry) (replace : Bool)
    → let local_key = get_local_chat_history_query_key query_key in
      let once = upsert_chat_history client query_key chat replace in
      let twice = upsert_chat_history once query_key chat replace in
      (twice.local_chats local_key ≡ once.local_chats local_key)
      × (twice.history query_key ≡ once.history query_key)
unfolding upsert_chat_history
upsert_chat_history_twice client query_key chat replace =
    rw (same_key_refl (get_local_chat_history_query_key query_key), same_key_refl query_key)
      (
        ap some (upsert_local_twice chat replace _),
        ap some (upsert_pages_twice chat replace (client.history query_key)),
      )
