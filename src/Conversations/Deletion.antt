-- ===== src/Conversations/Deletion.antt =====
-- frontend/src/lib/db/queries.ts: `deleteChatById` and `deleteAllChatsByUserId`. The keys of messages
-- and streams refer to chats, so that the order of the deletions matters.
use agent_workflow_fast_api.Base.{
  ℕ, suc, String, Bool, true, false, not, List, [], ◌∷◌, ◌≡◌, refl, sym, ◌∙◌, ap, arith, ◌==◌,
  ==_iff, string_eq, length, filter, head?, any, contains, Result, ok, err,
}
use agent_workflow_fast_api.Conversations.Tables.{Tables, Chat}
use agent_workflow_fast_api.Conversations.Statements.{
  Server, Store, Failure, wrapped, statement, delete_messages, delete_streams, delete_chats,
  chat_in_use, chat_ids,
}
use agent_workflow_fast_api.Conversations.Queries.{
  owned_by, delete_chat_by_id, delete_chats_of, delete_unless_none, delete_all_chats_by_user_id,
}

-- The tables without the chats of a test, and without the messages and streams of these chats.
abbrev pub without_chats : (Chat → Bool) → List String → Tables → Tables
without_chats q ids t = record t {
  chats = filter (λ c. not (q c)) t.chats;
  messages = filter (λ m. not (contains ids m.chat_id)) t.messages;
  streams = filter (λ x. not (contains ids x.chat_id)) t.streams;
}

module _ {A : Type 0} where
  any-filter-not :
      (f r : A → Bool) (xs : List A)
      → ((x : A) → f x ≡ true → r x ≡ true)
      → any f (filter (λ x. not (r x)) xs) ≡ false
  any-filter-not f r [] h = refl
  any-filter-not f r (x ∷ xs) h = ground (arith, any-filter-not f r xs h, h x)

  pub filter-ext :
      (f g : A → Bool) (xs : List A) → ((x : A) → f x ≡ g x) → filter f xs ≡ filter g xs
  filter-ext f g [] h = refl
  filter-ext f g (x ∷ xs) h = rw (h x, filter-ext f g xs h) refl

  pub filter-true : (xs : List A) → filter (λ x. true) xs ≡ xs
  filter-true [] = refl
  filter-true (x ∷ xs) = ap (λ r. x ∷ r) (filter-true xs)

-- The chats of an id have that id.
pub contains-chat_ids :
    (id : String) (cs : List Chat) (x : String)
    → contains (chat_ids (filter (λ c. c.id == id) cs)) x ≡ true
    → (x == id) ≡ true
contains-chat_ids id [] x h = ground arith
contains-chat_ids id (c ∷ cs) x h =
    ground (arith, contains-chat_ids id cs x, ==_iff c.id id, ==_iff c.id x, ==_iff x id)

one_id : (id x : String) → contains (id ∷ []) x ≡ (x == id)
one_id id x = ground (arith, ==_iff id x, ==_iff x id)

one_chat :
    (q : Chat → Bool) (id : String) (t : Tables)
    → record t {
      chats = filter (λ c. not (q c)) t.chats;
      messages = filter (λ m. not (m.chat_id == id)) t.messages;
      streams = filter (λ x. not (x.chat_id == id)) t.streams;
    }
      ≡ without_chats q (id ∷ []) t
one_chat q id t =
    rw
      (
        filter-ext (λ m. not (contains (id ∷ []) m.chat_id)) (λ m. not (m.chat_id == id)) t.messages
            (λ m. ap not (one_id id m.chat_id)),
        filter-ext (λ x. not (contains (id ∷ []) x.chat_id)) (λ x. not (x.chat_id == id)) t.streams
            (λ x. ap not (one_id id x.chat_id)),
      )
      refl

-- Once the messages and streams are gone, nothing refers to the chats.
unused_after :
    (ids : List String) (r : String → Bool) (t : Tables)
    → ((x : String) → contains ids x ≡ true → r x ≡ true)
    → chat_in_use ids (record t {
      messages = filter (λ m. not (r m.chat_id)) t.messages;
      streams = filter (λ x. not (r x.chat_id)) t.streams;
    })
      ≡ false
unfolding chat_in_use
unused_after ids r t h =
    rw
      (
        any-filter-not (λ m. contains ids m.chat_id) (λ m. r m.chat_id) t.messages
            (λ m. h m.chat_id),
        any-filter-not (λ x. contains ids x.chat_id) (λ x. r x.chat_id) t.streams
            (λ x. h x.chat_id),
      )
      refl

-- If every statement is served, deleting a chat succeeds whatever the tables hold: it returns a chat
-- with the id, if there is one, and takes exactly the chats with that id and their messages and
-- streams from the tables.
pub delete_chat_by_id_lem :
    (p : Server) (id : String) (s : Store)
    → ((n : ℕ) → p.online n ≡ true)
    → ((delete_chat_by_id p id s).0 ≡ ok (head? (filter (λ c. c.id == id) s.tables.chats)))
      × ((delete_chat_by_id p id s).1.tables ≡ without_chats (λ c. c.id == id) (id ∷ []) s.tables)
unfolding delete_chat_by_id statement delete_messages delete_streams delete_chats
delete_chat_by_id_lem p id s online =
    let free =
      unused_after (chat_ids (filter (λ c. c.id == id) s.tables.chats)) (λ x. x == id) s.tables
        (contains-chat_ids id s.tables.chats) in
    rw (online s.statements, online (suc s.statements), online (suc (suc s.statements)), free)
      (refl, one_chat (λ c. c.id == id) id s.tables)

-- The chats of a user in a workspace.
abbrev pub chats_of : String → String → Tables → List Chat
chats_of user_id workspace_id t = filter (owned_by user_id workspace_id) t.chats

no_chats :
    (q : Chat → Bool) (cs : List Chat)
    → chat_ids (filter q cs) ≡ []
    → filter (λ c. not (q c)) cs ≡ cs
no_chats q [] h = refl
no_chats q (c ∷ cs) h = ground (arith, no_chats q cs)

none_left :
    (q : Chat → Bool) (t : Tables) → chat_ids (filter q t.chats) ≡ [] → without_chats q [] t ≡ t
none_left q t h = rw (no_chats q t.chats h, filter-true t.messages, filter-true t.streams) refl

length-chat_ids : (cs : List Chat) → length cs ≡ length (chat_ids cs)
length-chat_ids [] = refl
length-chat_ids (c ∷ cs) = ap suc (length-chat_ids cs)

module _ (p : Server) (user_id workspace_id : String) (online : (n : ℕ) → p.online n ≡ true) where
  delete_chats_of_lem :
      (ids : List String) (s : Store)
      → chat_ids (chats_of user_id workspace_id s.tables) ≡ ids
      → let r = delete_chats_of p user_id workspace_id ids s in
        (r.0 ≡ ok (length ids))
        × (r.1.tables ≡ without_chats (owned_by user_id workspace_id) ids s.tables)
  unfolding delete_chats_of statement delete_messages delete_streams delete_chats
  delete_chats_of_lem ids s e =
      let free = unused_after ids (contains ids) s.tables (λ x h. h) in
      rw (online s.statements, online (suc s.statements), online (suc (suc s.statements)), e, free)
        (ap ok (length-chat_ids _ ∙ ap length e), refl)

  delete_unless_none_lem :
      (ids : List String) (s : Store)
      → chat_ids (chats_of user_id workspace_id s.tables) ≡ ids
      → let r = delete_unless_none p user_id workspace_id ids s in
        (r.0 ≡ ok (length ids))
        × (r.1.tables ≡ without_chats (owned_by user_id workspace_id) ids s.tables)
  unfolding delete_unless_none
  delete_unless_none_lem [] s e = (refl, sym (none_left (owned_by user_id workspace_id) s.tables e))
  delete_unless_none_lem (id ∷ ids) s e = delete_chats_of_lem (id ∷ ids) s e

wrapped_lem :
    {A : Type 0} (r : Result Failure A × Store) (a : A) (t : Tables)
    → r.0 ≡ ok a
    → r.1.tables ≡ t
    → ((wrapped r).0 ≡ ok a) × ((wrapped r).1.tables ≡ t)
wrapped_lem (ok b, s) a t h k = (ground arith, k)
wrapped_lem (err e, s) a t h k = cc

-- If every statement is served, deleting all chats of a user in a workspace succeeds: it returns how
-- many chats the user has there, and takes exactly these chats and their messages and streams from
-- the tables.
pub delete_all_chats_by_user_id_lem :
    (p : Server) (user_id workspace_id : String) (s : Store)
    → ((n : ℕ) → p.online n ≡ true)
    → let ids = chat_ids (chats_of user_id workspace_id s.tables) in
      ((delete_all_chats_by_user_id p user_id workspace_id s).0 ≡ ok (length ids))
      × ((delete_all_chats_by_user_id p user_id workspace_id s).1.tables
          ≡ without_chats (owned_by user_id workspace_id) ids s.tables)
unfolding delete_all_chats_by_user_id statement
delete_all_chats_by_user_id_lem p user_id workspace_id s online =
    let ids = chat_ids (chats_of user_id workspace_id s.tables) in
    let next = record s { statements = suc s.statements } in
    let (result, left) = delete_unless_none_lem p user_id workspace_id online ids next refl in
    rw (online s.statements)
      (wrapped_lem (delete_unless_none p user_id workspace_id ids next) (length ids) _ result left)
