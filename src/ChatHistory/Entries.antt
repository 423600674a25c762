-- ===== src/ChatHistory/Entries.antt =====
-- frontend/src/lib/backend/chatHistoryCache.ts: the entries after `upsertChatHistory`.
use agent_workflow_fast_api.Base.{
  String, Bool, true, false, not, List, [], ◌∷◌, ◌++◌, map, Option, ◌≡◌, refl, ap, ◌∙◌, arith, ◌==◌,
  ==_iff, ==-refl, string_eq, if◌then◌else◌, filter, any-append, get_or, Bool-cases, inl, inr,
}
use agent_workflow_fast_api.ChatHistory.Cache.{
  ChatHistoryEntry, ChatHistory, HistoryData, QueryClient, get_local_chat_history_query_key,
  merge_chat_history_entry, merge_first, has_entry, upsert_local, merge_if, merge_page,
  found_existing_chat, add_to_pages, existing_pages, upsert_pages, same_key, upsert_chat_history,
}

abbrev pub entry_ids : List ChatHistoryEntry → List String
entry_ids = map (λ c. c.id)

-- The entries of all pages.
abbrev pub entries_of : List ChatHistory → List ChatHistoryEntry
entries_of [] = []
entries_of (page ∷ pages) = page.chats ++ entries_of pages

abbrev pub others : String → List ChatHistoryEntry → List ChatHistoryEntry
others id = filter (λ c. not (c.id == id))

-- An entry with the id stands where one stood, or is put in front, and the others are as they were.
pub record IsUpsert (id : String) (before after : List ChatHistoryEntry) : Type 0 where
  pub ids :
      entry_ids after ≡ (if has_entry id before then entry_ids before else id ∷ entry_ids before)
  pub rest : others id after ≡ others id before

module _ (chat : ChatHistoryEntry) (replace : Bool) where
  merge_first-ids :
      (cs : List ChatHistoryEntry) → entry_ids (merge_first chat replace cs) ≡ entry_ids cs
  unfolding merge_first merge_chat_history_entry
  merge_first-ids [] = refl
  merge_first-ids (c ∷ cs) = ground (arith, merge_first-ids cs, ==_iff c.id chat.id)

  merge_first-others :
      (cs : List ChatHistoryEntry)
      → others chat.id (merge_first chat replace cs) ≡ others chat.id cs
  unfolding merge_first merge_chat_history_entry
  merge_first-others [] = refl
  merge_first-others (c ∷ cs) = ground (arith, merge_first-others cs, ==-refl chat.id)

  front-IsUpsert :
      (cs : List ChatHistoryEntry) → has_entry chat.id cs ≡ false → IsUpsert chat.id cs (chat ∷ cs)
  front-IsUpsert cs h = record { ids = rw h refl; rest = rw (==-refl chat.id) refl }

  upsert_local-IsUpsert :
      (cs : List ChatHistoryEntry) → IsUpsert chat.id cs (upsert_local chat replace cs)
  unfolding upsert_local
  upsert_local-IsUpsert cs = elim (Bool-cases (has_entry chat.id cs)) [
    | inl e ↦ rw e (record { ids = rw e (merge_first-ids cs); rest = merge_first-others cs })
    | inr e ↦ rw e (front-IsUpsert cs e)
  ]

  merge_if-ids :
      (cs : List ChatHistoryEntry) → entry_ids (map (merge_if chat replace) cs) ≡ entry_ids cs
  unfolding merge_chat_history_entry
  merge_if-ids [] = refl
  merge_if-ids (c ∷ cs) = ground (arith, merge_if-ids cs, ==_iff c.id chat.id)

  merge_if-others :
      (cs : List ChatHistoryEntry)
      → others chat.id (map (merge_if chat replace) cs) ≡ others chat.id cs
  unfolding merge_chat_history_entry
  merge_if-others [] = refl
  merge_if-others (c ∷ cs) = ground (arith, merge_if-others cs, ==-refl chat.id)

  entries_of-merge_page :
      (pages : List ChatHistory)
      → entries_of (map (merge_page chat replace) pages)
        ≡ map (merge_if chat replace) (entries_of pages)
  entries_of-merge_page [] = refl
  entries_of-merge_page (page ∷ pages) =
      ap (◌++◌ (map (merge_if chat replace) page.chats)) (entries_of-merge_page pages)
      ∙ map-append page.chats (entries_of pages)
    where
      map-append :
          (xs ys : List ChatHistoryEntry)
          → map (merge_if chat replace) xs ++ map (merge_if chat replace) ys
            ≡ map (merge_if chat replace) (xs ++ ys)
      map-append [] ys = refl
      map-append (x ∷ xs) ys = ap (λ r. merge_if chat replace x ∷ r) (map-append xs ys)

  found_existing_chat_lem :
      (pages : List ChatHistory)
      → found_existing_chat chat pages ≡ has_entry chat.id (entries_of pages)
  found_existing_chat_lem [] = refl
  found_existing_chat_lem (page ∷ pages) = ground (
    arith,
    found_existing_chat_lem pages,
    any-append (λ c. c.id == chat.id) page.chats (entries_of pages),
  )

  -- Merging changes nothing where no entry has the id.
  merge_if_absent :
      (cs : List ChatHistoryEntry)
      → has_entry chat.id cs ≡ false
      → map (merge_if chat replace) cs ≡ cs
  merge_if_absent [] h = refl
  merge_if_absent (c ∷ cs) h = ground (arith, merge_if_absent cs)

  entries_of-add_to_pages :
      (pages : List ChatHistory) → entries_of (add_to_pages chat pages) ≡ chat ∷ entries_of pages
  entries_of-add_to_pages [] = refl
  entries_of-add_to_pages (page ∷ pages) = refl

  upsert_pages-IsUpsert :
      (cached : Option HistoryData)
      → IsUpsert chat.id
          (entries_of (existing_pages cached))
          (entries_of (upsert_pages chat replace cached).pages)
  unfolding upsert_pages
  upsert_pages-IsUpsert cached =
      let old = existing_pages cached in
      let same = found_existing_chat_lem old in
      elim (Bool-cases (has_entry chat.id (entries_of old))) [
        | inl e ↦
            rw (same, e, entries_of-merge_page old)
              (record {
                ids = rw e (merge_if-ids (entries_of old));
                rest = merge_if-others (entries_of old);
              })
        | inr e ↦
            rw
              (
                same,
                e,
                entries_of-add_to_pages (map (merge_page chat replace) old),
                entries_of-merge_page old,
                merge_if_absent (entries_of old) e,
              )
              (front-IsUpsert (entries_of old) e)
      ]

pub same_key_refl : (k : List String) → same_key k k ≡ true
same_key_refl [] = refl
same_key_refl (x ∷ k) = rw (==-refl x) (same_key_refl k)

-- After `upsertChatHistory`, both the local chats of the key and the pages of the key have an entry
-- with the chat's id where they had one, or a new one in front of all others, and no other entry is
-- changed, added, moved or lost.
pub upsert_chat_history-IsUpsert :
    (client : QueryClient) (query_key : List String) (chat : ChatHistoryEntry) (replace : Bool)
    → let local_key = get_local_chat_history_query_key query_key in
      let after = upsert_chat_history client query_key chat replace in
      IsUpsert chat.id
        (get_or (client.local_chats local_key) [])
        (get_or (after.local_chats local_key) [])
      × IsUpsert chat.id
          (entries_of (existing_pages (client.history query_key)))
          (entries_of (existing_pages (after.history query_key)))
unfolding upsert_chat_history
upsert_chat_history-IsUpsert client query_key chat replace =
    rw (same_key_refl (get_local_chat_history_query_key query_key), same_key_refl query_key)
      (
        upsert_local-IsUpsert chat replace _,
        upsert_pages-IsUpsert chat replace (client.history query_key),
      )
