-- ===== src/Conversations/Contract/Stored.antt =====
-- frontend/src/lib/db/queries.ts: what changed rows mean for the view of the tables.
use agent_workflow_fast_api.Base.{
  ℕ, String, Bool, true, false, not, ◌&&◌, List, [], ◌∷◌, ◌++◌, map, none, some, ◌≡◌, refl, sym, ap,
  ◌∙◌, subst, arith, ◌==◌, string_eq, ==_iff, eq_of_==, ltb, leb, if◌then◌else◌, filter, find?, any,
  All, contains, distinct, Bool-cases, inl, inr,
}
use agent_workflow_fast_api.Conversations.Tables.{Tables, Chat, DbMessage}
use agent_workflow_fast_api.Conversations.Statements.{insert_message, insert_all, chat_ids}
use agent_workflow_fast_api.Conversations.Deletion.{without_chats}
use agent_workflow_fast_api.Conversations.Truncation.{message_ids}
use agent_workflow_fast_api.Conversations.Contract.{
  View, View-eq, changed, with_message, with_messages, with_chat, saves_chat, updates_message,
  cuts_messages, deletes_chat, deletes_chats,
}
use agent_workflow_fast_api.Conversations.Contract.Rows.{
  find?-append-new, find?-filter-class, find?-map-class, find?-filter-kept, kept-find?,
  contains-keys,
}

-- The test for the message of a chat's id and an id.
abbrev pub placed_at : String → String → DbMessage → Bool
placed_at chat_id id m = m.chat_id == chat_id && m.id == id

abbrev pub table_view : Tables → View
table_view t = record {
  chat_of = λ id. find? (λ c. c.id == id) t.chats;
  message_of = λ chat_id id. find? (placed_at chat_id id) t.messages;
}

-- The primary keys of chats and messages, and the foreign key of messages.
pub record IsKept (t : Tables) : Type 0 where
  pub chats_apart : distinct (chat_ids t.chats) ≡ true
  pub messages_apart : distinct (message_ids t.messages) ≡ true
  pub messages_placed : All (λ m. any (λ c. c.id == m.chat_id) t.chats ≡ true) t.messages

if-not : {A : Type 0} (b : Bool) (x y : A) → (if not b then x else y) ≡ (if b then y else x)
if-not true x y = refl
if-not false x y = refl

no_messages :
    (chats : List Chat) (messages : List DbMessage) (chat_id id : String)
    → any (λ c. c.id == chat_id) chats ≡ false
    → All (λ m. any (λ c. c.id == m.chat_id) chats ≡ true) messages
    → find? (placed_at chat_id id) messages ≡ none
no_messages chats [] chat_id id free h = refl
no_messages chats (m ∷ messages) chat_id id free (p, h) = elim (Bool-cases (m.chat_id == chat_id)) [
  | inl e ↦
      let there : any (λ c. c.id == chat_id) chats ≡ true =
        subst (λ k. any (λ c. c.id == k) chats ≡ true) (eq_of_== m.chat_id chat_id e) p in
      absurd (ground arith)
  | inr e ↦ rw e (no_messages chats messages chat_id id free h)
]

pub table_view-save_chat :
    (c : Chat) (t : Tables)
    → IsKept t
    → any (λ d. d.id == c.id) t.chats ≡ false
    → table_view (record t { chats = t.chats ++ (c ∷ []) }) ≡ changed (saves_chat c) (table_view t)
unfolding changed
table_view-save_chat c t k free =
    View-eq _ _
      (λ id.
        find?-append-new (λ d. d.id == id) c t.chats
          (λ e. subst (λ i. any (λ d. d.id == i) t.chats ≡ false) (eq_of_== c.id id e) free))
      (λ chat_id id. elim (Bool-cases (c.id == chat_id)) [
        | inl e ↦
            let gone = no_messages t.chats t.messages c.id id free k.messages_placed in
            rw (e, ← eq_of_== c.id chat_id e) gone
        | inr e ↦ rw e refl
      ])

any-placed_at :
    (chat_id id : String) (ms : List DbMessage)
    → any (λ n. n.id == id) ms ≡ false
    → any (placed_at chat_id id) ms ≡ false
any-placed_at chat_id id [] h = refl
any-placed_at chat_id id (m ∷ ms) h = ground (arith, any-placed_at chat_id id ms)

table_view-message :
    (m : DbMessage) (t : Tables)
    → any (λ n. n.id == m.id) t.messages ≡ false
    → table_view (record t { messages = t.messages ++ (m ∷ []) }) ≡ with_message m (table_view t)
table_view-message m t free =
    View-eq _ _ (λ id. refl)
      (λ chat_id id. find?-append-new (placed_at chat_id id) m t.messages (λ e.
        any-placed_at chat_id id t.messages (
          subst (λ i. any (λ n. n.id == i) t.messages ≡ false) (eq_of_== m.id id (ground arith))
            free)))

pub table_view-insert_all :
    (items : List DbMessage) (t u : Tables)
    → insert_all insert_message items t ≡ some u
    → table_view u ≡ with_messages items (table_view t)
unfolding insert_message
table_view-insert_all [] t u e = let same : t ≡ u = cc in ap table_view (sym same)
table_view-insert_all (m ∷ items) t u e =
    elim (Bool-cases
      (not (any (λ n. n.id == m.id) t.messages) && any (λ c. c.id == m.chat_id) t.chats)) [
        | inl good ↦
            table_view-insert_all items (record t { messages = t.messages ++ (m ∷ []) }) u
              (rw (insert_all, good) at e)
            ∙ ap (with_messages items) (table_view-message m t (ground arith))
        | inr bad ↦ let never : none ≡ some u = rw (insert_all, bad) at e in cc
      ]

pub table_view-update :
    (id parts : String) (t : Tables)
    → table_view (record t {
      messages = map (λ m. if m.id == id then record m { parts = parts } else m) t.messages;
    })
      ≡ changed (updates_message id parts) (table_view t)
unfolding changed
table_view-update id parts t =
    View-eq _ _ (λ k. refl)
      (λ chat_id key.
        find?-map-class (placed_at chat_id key) (λ m. m.id == id) (λ m. record m { parts = parts })
          (id == key) t.messages (λ m. refl)
          (λ m e. ground (arith, ==_iff m.id key, ==_iff m.id id, ==_iff id key)))

pub table_view-change :
    (f : Chat → Chat) (chat_id : String) (t : Tables)
    → ((c : Chat) → (f c).id ≡ c.id)
    → table_view (record t { chats = map (λ c. if c.id == chat_id then f c else c) t.chats })
      ≡ with_chat f chat_id (table_view t)
table_view-change f chat_id t same =
    View-eq _ _
      (λ id.
        find?-map-class (λ c. c.id == id) (λ c. c.id == chat_id) f (chat_id == id) t.chats
          (λ c. ap (λ i. i == id) (same c))
          (λ c e. ground (arith, ==_iff c.id id, ==_iff c.id chat_id, ==_iff chat_id id)))
      (λ c id. refl)

pub table_view-cut :
    (cut_id : String) (timestamp : ℕ) (t : Tables)
    → IsKept t
    → table_view (record t {
      messages = filter (λ m. not (m.chat_id == cut_id && leb timestamp m.created_at)) t.messages;
    })
      ≡ changed (cuts_messages cut_id timestamp) (table_view t)
unfolding changed
table_view-cut cut_id timestamp t k =
    View-eq _ _ (λ id. refl)
      (λ chat_id id. elim (Bool-cases (cut_id == chat_id)) [
        | inl e ↦ rw e (
            find?-filter-kept (placed_at chat_id id) (λ m. m.id) id
              (λ m s. eq_of_== m.id id (ground arith))
              (λ m. not (m.chat_id == cut_id && leb timestamp m.created_at)) t.messages
              k.messages_apart
            ∙ kept-find? (placed_at chat_id id) _ (λ m. ltb m.created_at timestamp) t.messages
                (λ m s. ground (
                  arith,
                  ==_iff m.chat_id cut_id,
                  ==_iff m.chat_id chat_id,
                  ==_iff cut_id chat_id,
                )))
        | inr e ↦ rw e (
            find?-filter-class (placed_at chat_id id)
              (λ m. not (m.chat_id == cut_id && leb timestamp m.created_at)) true t.messages
              (λ m s.
                ground (
                  arith,
                  ==_iff m.chat_id cut_id,
                  ==_iff m.chat_id chat_id,
                  ==_iff cut_id chat_id,
                )))
      ])

pub table_view-delete :
    (deleted : String) (t : Tables)
    → table_view (without_chats (λ c. c.id == deleted) (deleted ∷ []) t)
      ≡ changed (deletes_chat deleted) (table_view t)
unfolding changed
table_view-delete deleted t =
    View-eq _ _
      (λ id.
        find?-filter-class (λ c. c.id == id) (λ c. not (c.id == deleted)) (not (deleted == id))
          t.chats (λ c e. ground (arith, ==_iff c.id id, ==_iff c.id deleted, ==_iff deleted id))
        ∙ if-not (deleted == id) _ _)
      (λ chat_id id.
        find?-filter-class (placed_at chat_id id) (λ m. not (contains (deleted ∷ []) m.chat_id))
          (not (deleted == chat_id)) t.messages
          (λ m e.
            ground
              (arith, ==_iff m.chat_id chat_id, ==_iff deleted m.chat_id, ==_iff deleted chat_id))
        ∙ if-not (deleted == chat_id) _ _)

pub table_view-delete_all :
    (q : Chat → Bool) (t : Tables)
    → IsKept t
    → table_view (without_chats q (chat_ids (filter q t.chats)) t)
      ≡ changed (deletes_chats q) (table_view t)
unfolding changed
table_view-delete_all q t k =
    View-eq _ _
      (λ id.
        find?-filter-kept (λ c. c.id == id) (λ c. c.id) id (λ c e. eq_of_== c.id id e)
          (λ c. not (q c)) t.chats k.chats_apart)
      (λ chat_id id.
        let ids = chat_ids (filter q t.chats) in
        find?-filter-class (placed_at chat_id id) (λ m. not (contains ids m.chat_id))
          (not (contains ids chat_id)) t.messages
          (λ m e. ap (λ i. not (contains ids i)) (eq_of_== m.chat_id chat_id (ground arith)))
        ∙ if-not (contains ids chat_id) _ _
        ∙ rw (contains-keys (λ c. c.id) q chat_id t.chats k.chats_apart) refl)
