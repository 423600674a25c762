-- ===== src/Conversations/Mock/Views.antt =====
-- frontend/src/lib/db/mock.ts: what changed maps mean for the view of them.
use mathlib.Core.Option
use agent_workflow_fast_api.Base.{
  ℕ, String, Bool, true, false, not, ◌&&◌, List, [], ◌∷◌, Option, none, some, ◌≡◌, refl, ap, ◌∙◌,
  subst, arith, ◌==◌, string_eq, eq_of_==, ltb, if◌then◌else◌, filter, find?, contains, kept,
  get_or, Map, map_get, map_set, map_delete, IsKeyed, map_get-set, map_get-delete, Bool-cases,
  Option-cases, inl, inr,
}
use agent_workflow_fast_api.Conversations.Tables.{Chat, DbMessage}
use agent_workflow_fast_api.Conversations.Contract.{View-eq, with_messages, with_chat, holds}
use agent_workflow_fast_api.Conversations.Mock.{
  MockDatabase, messages_of, keys_of, delete_keys, put_message, save_message, save_each, set_parts,
  change_chat,
}
use agent_workflow_fast_api.Conversations.Mock.Lists.{
  find?-put_message, find?-set_parts, find?-filter,
}
use agent_workflow_fast_api.Conversations.Mock.Calls.{view}
use agent_workflow_fast_api.Conversations.Mock.Invariant.{IsConsistent, messages_of-IsListed}

-- The message of an id in the list that may stand under a key.
abbrev pub found : String → Option (List DbMessage) → Option DbMessage
found id o = find? (λ m. m.id == id) (get_or o [])

pub found-if :
    (b : Bool) (id : String) (o p : Option (List DbMessage))
    → found id (if b then o else p) ≡ (if b then found id o else found id p)
found-if true id o p = refl
found-if false id o p = refl

pub found-map :
    (id parts key : String) (o : Option (List DbMessage))
    → found key (Option.map (set_parts id parts) o) ≡ (
        if id == key
        then Option.map {A = DbMessage} (λ m. record m { parts = parts }) (found key o)
        else found key o)
found-map id parts key none = ground arith
found-map id parts key (some items) = find?-set_parts id parts key items

found-save_message :
    (item : DbMessage) (messages : Map (List DbMessage)) (chat_id id : String)
    → found id (map_get chat_id (save_message item messages)) ≡ (
        if item.chat_id == chat_id && item.id == id
        then some item
        else found id (map_get chat_id messages))
unfolding save_message
found-save_message item messages chat_id id =
    let current = get_or (map_get item.chat_id messages) [] in
    elim (Bool-cases (item.chat_id == chat_id)) [
      | inl e ↦
          rw
            (
              map_get-set chat_id item.chat_id (put_message item current) messages,
              e,
              ← eq_of_== item.chat_id chat_id e,
            )
            (find?-put_message item id current)
      | inr e ↦ rw (map_get-set chat_id item.chat_id (put_message item current) messages, e) refl
    ]

pub view-save_each :
    (items : List DbMessage) (chats : Map Chat) (messages : Map (List DbMessage))
    → view (record { chats = chats; messages = save_each items messages })
      ≡ with_messages items (view (record { chats = chats; messages = messages }))
view-save_each [] chats messages = refl
view-save_each (item ∷ items) chats messages =
    view-save_each items chats (save_message item messages)
    ∙ ap (with_messages items) (View-eq _ _ (λ id. refl) (found-save_message item messages))

map_get-change_chat :
    (f : Chat → Chat) (chat_id : String) (m : Map Chat) (id : String)
    → map_get id (change_chat f chat_id m)
      ≡ (if chat_id == id then Option.map f (map_get id m) else map_get id m)
map_get-change_chat f chat_id m id = elim (Option-cases (map_get chat_id m)) [
  | inl e ↦ elim (Bool-cases (chat_id == id)) [
    | inl s ↦
        let gone : map_get id m ≡ none =
          subst (λ k. map_get k m ≡ none) (eq_of_== chat_id id s) e in
        rw (change_chat, e, s, gone) refl
    | inr s ↦ rw (change_chat, e, s) refl
  ]
  | inr (item, e) ↦ elim (Bool-cases (chat_id == id)) [
    | inl s ↦
        let there : map_get id m ≡ some item =
          subst (λ k. map_get k m ≡ some item) (eq_of_== chat_id id s) e in
        rw (change_chat, e, map_get-set id chat_id (f item) m, s, there) refl
    | inr s ↦ rw (change_chat, e, map_get-set id chat_id (f item) m, s) refl
  ]
]

pub view-change_chat :
    (f : Chat → Chat) (chat_id : String) (d : MockDatabase)
    → view (record d { chats = change_chat f chat_id d.chats }) ≡ with_chat f chat_id (view d)
view-change_chat f chat_id d = View-eq _ _ (map_get-change_chat f chat_id d.chats) (λ c id. refl)

pub map_get-delete_keys :
    {A : Type 0} (k : String) (ids : List String) (m : Map A)
    → map_get k (delete_keys ids m) ≡ (if contains ids k then none else map_get k m)
map_get-delete_keys k [] m = refl
map_get-delete_keys k (id ∷ ids) m =
    map_get-delete_keys k ids (map_delete id m) ∙ rw (map_get-delete k id m) (ground arith)

pub contains-keys_of :
    (user_id k : String) (chats : Map Chat)
    → IsKeyed chats
    → contains (keys_of user_id chats) k ≡ holds (λ c. c.user_id == user_id) (map_get k chats)
contains-keys_of user_id k [] h = refl
contains-keys_of user_id k ((j, c) ∷ chats) (n, h) = elim (Bool-cases (c.user_id == user_id)) [
  | inl own ↦ rw own (ground (arith, contains-keys_of user_id k chats h))
  | inr other ↦ elim (Bool-cases (j == k)) [
    | inl e ↦
        let gone : map_get k chats ≡ none =
          subst (λ i. map_get i chats ≡ none) (eq_of_== j k e) n in
        rw (e, other)
          (contains-keys_of user_id k chats h ∙ ap (holds (λ x. x.user_id == user_id)) gone)
    | inr e ↦ rw (e, other) (contains-keys_of user_id k chats h)
  ]
]

pub kept-holds :
    {A : Type 0} (q : A → Bool) (o : Option A)
    → (if holds q o then none else o) ≡ kept (λ a. not (q a)) o
kept-holds q none = refl
kept-holds q (some a) = ground arith

pub found-cut :
    (cut_id : String) (timestamp : ℕ) (d : MockDatabase)
    → IsConsistent d
    → (chat_id id : String)
    → found id (
        map_get chat_id (
          map_set cut_id
            (filter (λ m. ltb m.created_at timestamp) (messages_of cut_id d))
            d.messages))
      ≡ (if cut_id == chat_id
          then kept (λ m. ltb m.created_at timestamp) (found id (map_get chat_id d.messages))
          else found id (map_get chat_id d.messages))
found-cut cut_id timestamp d c chat_id id =
    let early : DbMessage → Bool = λ m. ltb m.created_at timestamp in
    let current = messages_of cut_id d in
    elim (Bool-cases (cut_id == chat_id)) [
      | inl e ↦
          rw
            (
              map_get-set chat_id cut_id (filter early current) d.messages,
              e,
              ← eq_of_== cut_id chat_id e,
            )
            (find?-filter early cut_id id current
              (messages_of-IsListed cut_id d.messages c.messages_listed))
      | inr e ↦ rw (map_get-set chat_id cut_id (filter early current) d.messages, e) refl
    ]
