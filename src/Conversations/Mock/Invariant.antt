-- ===== src/Conversations/Mock/Invariant.antt =====
-- frontend/src/lib/db/mock.ts: what holds of the maps at all times.
use agent_workflow_fast_api.Base.{
  subst, String, Bool, not, List, [], ◌∷◌, map, Option, none, some, ◌≡◌, refl, sym, ◌∙◌, ◌==◌,
  string_eq, eq_of_==, ltb, filter, All, All-filter, get_or, Map, map_get, map_set, map_delete,
  IsKeyed, map_set-IsKeyed, map-IsKeyed, filter-IsKeyed, Bool-cases, Option-cases, inl, inr,
}
use agent_workflow_fast_api.Conversations.Tables.{Chat, DbMessage}
use agent_workflow_fast_api.Conversations.Mock.Lists.{
  IsListed, put_message-IsListed, set_parts-IsListed, filter-IsListed,
}
use agent_workflow_fast_api.Conversations.Mock.Calls.{
  MockCall, save_chat_call, save_messages_call, update_message_call, delete_after_call,
  visibility_call, title_call, delete_chat_call, delete_all_call, apply, apply_all, empty,
}
use agent_workflow_fast_api.Conversations.Mock.{
  MockDatabase, messages_of, keys_of, delete_keys, put_message, save_message, save_each, set_parts,
  change_chat, mock_save_chat, mock_save_messages, mock_update_message,
  mock_delete_messages_after_timestamp, mock_update_chat_visibility, mock_update_chat_title,
  mock_delete_chat_by_id, mock_delete_all_chats_by_user_id,
}

abbrev pub AllListed : Map (List DbMessage) → Type 0
AllListed m = All (λ e. IsListed e.0 e.1) m

-- No key stands twice, each chat stands under its id, and each message in the list of its chat, which
-- has no second one with its id.
pub record IsConsistent (d : MockDatabase) : Type 0 where
  pub chats_keyed : IsKeyed d.chats
  pub chats_named : All (λ e. e.1.id ≡ e.0) d.chats
  pub messages_keyed : IsKeyed d.messages
  pub messages_listed : AllListed d.messages

All-map_set :
    {A : Type 0} (P : String × A → Type 0) (k : String) (a : A) (m : Map A)
    → P (k, a)
    → All P m
    → All P (map_set k a m)
All-map_set P k a [] p h = (p, tt)
All-map_set P k a ((j, b) ∷ m) p (q, h) = elim (Bool-cases (j == k)) [
  | inl e ↦ rw e (subst (λ i. P (i, a)) (sym (eq_of_== j k e)) p, h)
  | inr e ↦ rw e (q, All-map_set P k a m p h)
]

All-map_get :
    {A : Type 0} (P : String × A → Type 0) (k : String) (m : Map A) (a : A)
    → All P m
    → map_get k m ≡ some a
    → P (k, a)
All-map_get P k [] a h e = cc
All-map_get P k ((j, b) ∷ m) a (p, h) e = elim (Bool-cases (j == k)) [
  | inl s ↦
      let known : some b ≡ some a = rw s at e in
      let same_value : b ≡ a = cc in
      subst (λ i. P (i, a)) (eq_of_== j k s) (subst (λ x. P (j, x)) same_value p)
  | inr s ↦ All-map_get P k m a h (rw s at e)
]

All-map :
    {A : Type 0} (P : String × A → Type 0) (f : A → A) (m : Map A)
    → ((k : String) (a : A) → P (k, a) → P (k, f a))
    → All P m
    → All P (map (λ e. (e.0, f e.1)) m)
All-map P f [] each h = tt
All-map P f ((k, a) ∷ m) each (p, h) = (each k a p, All-map P f m each h)

get_or-IsListed :
    (k : String) (m : Map (List DbMessage)) (o : Option (List DbMessage))
    → AllListed m
    → map_get k m ≡ o
    → IsListed k (get_or o [])
get_or-IsListed k m none h e = tt
get_or-IsListed k m (some items) h e = All-map_get (λ x. IsListed x.0 x.1) k m items h e

pub messages_of-IsListed :
    (k : String) (m : Map (List DbMessage)) → AllListed m → IsListed k (get_or (map_get k m) [])
messages_of-IsListed k m h = get_or-IsListed k m (map_get k m) h refl

save_each-IsConsistent :
    (items : List DbMessage) (chats : Map Chat) (messages : Map (List DbMessage))
    → IsConsistent (record { chats = chats; messages = messages })
    → IsConsistent (record { chats = chats; messages = save_each items messages })
unfolding save_message
save_each-IsConsistent [] chats messages c = c
save_each-IsConsistent (item ∷ items) chats messages c =
    let current = get_or (map_get item.chat_id messages) [] in
    save_each-IsConsistent items chats (save_message item messages) (record {
      chats_keyed = c.chats_keyed;
      chats_named = c.chats_named;
      messages_keyed =
          map_set-IsKeyed item.chat_id (put_message item current) messages c.messages_keyed;
      messages_listed =
          All-map_set (λ e. IsListed e.0 e.1) item.chat_id (put_message item current) messages
            (put_message-IsListed item item.chat_id current refl
              (messages_of-IsListed item.chat_id messages c.messages_listed))
            c.messages_listed;
    })

change_chat-IsConsistent :
    (f : Chat → Chat) (id : String) (d : MockDatabase)
    → ((c : Chat) → (f c).id ≡ c.id)
    → IsConsistent d
    → IsConsistent (record d { chats = change_chat f id d.chats })
change_chat-IsConsistent f id d same c = elim (Option-cases (map_get id d.chats)) [
  | inl e ↦ rw (change_chat, e) c
  | inr (item, e) ↦
      rw (change_chat, e)
        (record {
          chats_keyed = map_set-IsKeyed id (f item) d.chats c.chats_keyed;
          chats_named =
              All-map_set (λ e. e.1.id ≡ e.0) id (f item) d.chats
                (same item ∙ All-map_get (λ e. e.1.id ≡ e.0) id d.chats item c.chats_named e)
                c.chats_named;
          messages_keyed = c.messages_keyed;
          messages_listed = c.messages_listed;
        })
]

delete_keys-IsConsistent :
    (ids : List String) (chats : Map Chat) (messages : Map (List DbMessage))
    → IsConsistent (record { chats = chats; messages = messages })
    → IsConsistent (record { chats = delete_keys ids chats; messages = delete_keys ids messages })
delete_keys-IsConsistent [] chats messages c = c
delete_keys-IsConsistent (id ∷ ids) chats messages c =
    delete_keys-IsConsistent ids (map_delete id chats) (map_delete id messages) (record {
      chats_keyed = filter-IsKeyed (λ e. not (e.0 == id)) chats c.chats_keyed;
      chats_named = All-filter (λ e. e.1.id ≡ e.0) (λ e. not (e.0 == id)) chats c.chats_named;
      messages_keyed = filter-IsKeyed (λ e. not (e.0 == id)) messages c.messages_keyed;
      messages_listed =
          All-filter (λ e. IsListed e.0 e.1) (λ e. not (e.0 == id)) messages c.messages_listed;
    })

pub apply-IsConsistent :
    (call : MockCall) (d : MockDatabase) → IsConsistent d → IsConsistent (apply call d)
unfolding apply mock_save_chat mock_save_messages mock_update_message
    mock_delete_messages_after_timestamp mock_update_chat_visibility mock_update_chat_title
    mock_delete_chat_by_id mock_delete_all_chats_by_user_id
apply-IsConsistent (save_chat_call item) d c = record {
  chats_keyed = map_set-IsKeyed item.id item d.chats c.chats_keyed;
  chats_named = All-map_set (λ e. e.1.id ≡ e.0) item.id item d.chats refl c.chats_named;
  messages_keyed = map_set-IsKeyed item.id [] d.messages c.messages_keyed;
  messages_listed = All-map_set (λ e. IsListed e.0 e.1) item.id [] d.messages tt c.messages_listed;
}
apply-IsConsistent (save_messages_call items) d c =
    save_each-IsConsistent items d.chats d.messages c
apply-IsConsistent (update_message_call id parts) d c = record {
  chats_keyed = c.chats_keyed;
  chats_named = c.chats_named;
  messages_keyed = map-IsKeyed (set_parts id parts) d.messages c.messages_keyed;
  messages_listed =
      All-map (λ e. IsListed e.0 e.1) (set_parts id parts) d.messages
        (λ k items h. set_parts-IsListed id parts k items h) c.messages_listed;
}
apply-IsConsistent (delete_after_call chat_id timestamp) d c =
    let current = messages_of chat_id d in
    let early : DbMessage → Bool = λ m. ltb m.created_at timestamp in
    record {
      chats_keyed = c.chats_keyed;
      chats_named = c.chats_named;
      messages_keyed = map_set-IsKeyed chat_id (filter early current) d.messages c.messages_keyed;
      messages_listed =
          All-map_set (λ e. IsListed e.0 e.1) chat_id (filter early current) d.messages
            (filter-IsListed early chat_id current
              (messages_of-IsListed chat_id d.messages c.messages_listed))
            c.messages_listed;
    }
apply-IsConsistent (visibility_call chat_id visibility) d c =
    change_chat-IsConsistent (λ x. record x { visibility = visibility }) chat_id d (λ x. refl) c
apply-IsConsistent (title_call chat_id title) d c =
    change_chat-IsConsistent (λ x. record x { title = title }) chat_id d (λ x. refl) c
apply-IsConsistent (delete_chat_call id) d c =
    delete_keys-IsConsistent (id ∷ []) d.chats d.messages c
apply-IsConsistent (delete_all_call user_id) d c =
    delete_keys-IsConsistent (keys_of user_id d.chats) d.chats d.messages c

apply_all-IsConsistent :
    (calls : List MockCall) (d : MockDatabase) → IsConsistent d → IsConsistent (apply_all calls d)
apply_all-IsConsistent [] d c = c
apply_all-IsConsistent (call ∷ calls) d c =
    apply_all-IsConsistent calls (apply call d) (apply-IsConsistent call d c)

pub empty-IsConsistent : IsConsistent empty
empty-IsConsistent = record {
  chats_keyed = tt;
  chats_named = tt;
  messages_keyed = tt;
  messages_listed = tt;
}

-- After any calls from the start, no key stands twice in the maps, each chat stands under its id, and
-- each message in the list of its chat, where no other has its id.
pub mock_calls-IsConsistent : (calls : List MockCall) → IsConsistent (apply_all calls empty)
mock_calls-IsConsistent calls = apply_all-IsConsistent calls empty empty-IsConsistent
