-- ===== src/ChatHistory/Groups.antt =====
-- frontend/src/components/chat/sidebarHistory.tsx: `groupChatsByDate`.
use mathlib.Core.List.{append-nil}
use agent_workflow_fast_api.Base.{
  Bool, not, ◌&&◌, ◌||◌, List, [], ◌∷◌, ◌++◌, ◌≡◌, refl, ap, ◌∙◌, filter, Bool-cases, inl, inr,
}
use agent_workflow_fast_api.ChatHistory.Cache.{ChatHistoryEntry}
use agent_workflow_fast_api.ChatHistory.Sidebar.{
  Calendar, GroupedChats, no_groups, add_to_group, reduce_groups, group_chats_by_date,
}

snoc :
    (xs : List ChatHistoryEntry) (c : ChatHistoryEntry) (ys : List ChatHistoryEntry)
    → (xs ++ (c ∷ [])) ++ ys ≡ xs ++ (c ∷ ys)
snoc [] c ys = refl
snoc (x ∷ xs) c ys = ap (◌∷◌ x) (snoc xs c ys)

module _ (calendar : Calendar) where
  -- The group of a chat: the first whose test its time passes.
  abbrev pub today_test : ChatHistoryEntry → Bool
  today_test c = calendar.is_today c.created_at

  abbrev pub yesterday_test : ChatHistoryEntry → Bool
  yesterday_test c = not (today_test c) && calendar.is_yesterday c.created_at

  abbrev pub week_test : ChatHistoryEntry → Bool
  week_test c =
      not (today_test c)
      && (not (calendar.is_yesterday c.created_at) && calendar.is_within_week c.created_at)

  abbrev pub recent : ChatHistoryEntry → Bool
  recent c =
      today_test c || (calendar.is_yesterday c.created_at || calendar.is_within_week c.created_at)

  abbrev pub month_test : ChatHistoryEntry → Bool
  month_test c = not (recent c) && calendar.is_within_month c.created_at

  abbrev pub older_test : ChatHistoryEntry → Bool
  older_test c = not (recent c) && not (calendar.is_within_month c.created_at)

  -- Each group is what its test selects, in the order of the list.
  abbrev pub filtered : List ChatHistoryEntry → GroupedChats
  filtered chats = record {
    today = filter today_test chats;
    yesterday = filter yesterday_test chats;
    last_week = filter week_test chats;
    last_month = filter month_test chats;
    older = filter older_test chats;
  }

  abbrev joined : GroupedChats → GroupedChats → GroupedChats
  joined a b = record {
    today = a.today ++ b.today;
    yesterday = a.yesterday ++ b.yesterday;
    last_week = a.last_week ++ b.last_week;
    last_month = a.last_month ++ b.last_month;
    older = a.older ++ b.older;
  }

  step :
      (groups : GroupedChats) (c : ChatHistoryEntry) (cs : List ChatHistoryEntry)
      → joined (add_to_group calendar groups c) (filtered cs) ≡ joined groups (filtered (c ∷ cs))
  unfolding add_to_group
  step groups c cs = elim (Bool-cases (calendar.is_today c.created_at)) [
    | inl a ↦ rw a (rw (snoc groups.today c (filter today_test cs)) refl)
    | inr a ↦ elim (Bool-cases (calendar.is_yesterday c.created_at)) [
      | inl b ↦ rw (a, b) (rw (snoc groups.yesterday c (filter yesterday_test cs)) refl)
      | inr b ↦ elim (Bool-cases (calendar.is_within_week c.created_at)) [
        | inl d ↦ rw (a, b, d) (rw (snoc groups.last_week c (filter week_test cs)) refl)
        | inr d ↦ elim (Bool-cases (calendar.is_within_month c.created_at)) [
          | inl e ↦ rw (a, b, d, e) (rw (snoc groups.last_month c (filter month_test cs)) refl)
          | inr e ↦ rw (a, b, d, e) (rw (snoc groups.older c (filter older_test cs)) refl)
        ]
      ]
    ]
  ]

  reduce_groups-joined :
      (groups : GroupedChats) (cs : List ChatHistoryEntry)
      → reduce_groups calendar groups cs ≡ joined groups (filtered cs)
  reduce_groups-joined groups [] =
      rw
        (
          append-nil groups.today,
          append-nil groups.yesterday,
          append-nil groups.last_week,
          append-nil groups.last_month,
          append-nil groups.older,
        )
        refl
  reduce_groups-joined groups (c ∷ cs) =
      reduce_groups-joined (add_to_group calendar groups c) cs ∙ step groups c cs

-- `groupChatsByDate` puts each chat into the first group whose test its time passes, and the last
-- group if it passes none; each group keeps the order of the list.
group_chats_by_date_lem :
    (calendar : Calendar) (chats : List ChatHistoryEntry)
    → group_chats_by_date calendar chats ≡ filtered calendar chats
unfolding group_chats_by_date
group_chats_by_date_lem calendar chats = reduce_groups-joined calendar no_groups chats
