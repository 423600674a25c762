-- ===== src/Conversations/Contract/Keys.antt =====
-- frontend/src/lib/db/queries.ts and schema.ts: that changed rows keep the keys of chats and messages.
use agent_workflow_fast_api.Base.{
  String, Bool, true, false, not, ◌&&◌, ◌||◌, List, [], ◌∷◌, ◌++◌, map, none, some, ◌≡◌, refl, sym,
  ap, ◌∙◌, subst, arith, ◌==◌, string_eq, distinct-append-new, distinct-filter, map-key,
  if◌then◌else◌, filter, any, any-append, All, All-append, All-filter, contains, distinct,
  Bool-cases, inl, inr,
}
use agent_workflow_fast_api.Conversations.Tables.{Tables, Chat, DbMessage}
use agent_workflow_fast_api.Conversations.Statements.{insert_message, insert_all, chat_ids}
use agent_workflow_fast_api.Conversations.Deletion.{without_chats}
use agent_workflow_fast_api.Conversations.Contract.Stored.{IsKept}

Placed : List Chat → List DbMessage → Type 0
Placed chats messages = All (λ m. any (λ c. c.id == m.chat_id) chats ≡ true) messages

Placed-append :
    (c : Chat) (chats : List Chat) (messages : List DbMessage)
    → Placed chats messages
    → Placed (chats ++ (c ∷ [])) messages
unfolding Placed
Placed-append c chats [] h = tt
Placed-append c chats (m ∷ messages) (p, h) = (
  ground (arith, any-append (λ d. d.id == m.chat_id) chats (c ∷ [])),
  Placed-append c chats messages h,
)

any-ids :
    (k : String) (chats others : List Chat)
    → chat_ids chats ≡ chat_ids others
    → any (λ c. c.id == k) chats ≡ any (λ c. c.id == k) others
any-ids k chats others same =
    contains-ids k chats ∙ ap (λ ids. contains ids k) same ∙ sym (contains-ids k others)
  where
    contains-ids :
        (k : String) (cs : List Chat) → any (λ c. c.id == k) cs ≡ contains (chat_ids cs) k
    contains-ids k [] = refl
    contains-ids k (c ∷ cs) = ap (λ b. c.id == k || b) (contains-ids k cs)

Placed-ids :
    (chats others : List Chat) (messages : List DbMessage)
    → chat_ids chats ≡ chat_ids others
    → Placed chats messages
    → Placed others messages
unfolding Placed
Placed-ids chats others [] same h = tt
Placed-ids chats others (m ∷ messages) same (p, h) =
    (sym (any-ids m.chat_id chats others same) ∙ p, Placed-ids chats others messages same h)

-- A chat that is not selected is left.
any-left :
    (q : Chat → Bool) (k : String) (chats : List Chat)
    → contains (chat_ids (filter q chats)) k ≡ false
    → any (λ c. c.id == k) chats ≡ true
    → any (λ c. c.id == k) (filter (λ c. not (q c)) chats) ≡ true
any-left q k [] h p = p
any-left q k (c ∷ chats) h p = elim (Bool-cases (q c)) [
  | inl e ↦
      let apart : (c.id == k || contains (chat_ids (filter q chats)) k) ≡ false = rw e at h in
      rw e (any-left q k chats (ground arith) (ground arith))
  | inr e ↦
      let rest : contains (chat_ids (filter q chats)) k ≡ false = rw e at h in
      rw e (ground (arith, any-left q k chats rest))
]

not_selected : (s r : Bool) → (s ≡ true → r ≡ true) → r ≡ false → s ≡ false
not_selected true r h e = let no : r ≡ true = h refl in ground arith
not_selected false r h e = refl

-- The chats of the messages that are left are left.
Placed-without :
    (q : Chat → Bool) (r : String → Bool) (chats : List Chat) (messages : List DbMessage)
    → ((k : String) → contains (chat_ids (filter q chats)) k ≡ true → r k ≡ true)
    → Placed chats messages
    → Placed (filter (λ c. not (q c)) chats) (filter (λ m. not (r m.chat_id)) messages)
unfolding Placed
Placed-without q r chats [] each h = tt
Placed-without q r chats (m ∷ messages) each (p, h) = elim (Bool-cases (r m.chat_id)) [
  | inl e ↦ rw e (Placed-without q r chats messages each h)
  | inr e ↦ rw e (
    any-left q m.chat_id chats (not_selected _ _ (each m.chat_id) e) p,
    Placed-without q r chats messages each h,
  )
]

pub IsKept-save_chat :
    (c : Chat) (t : Tables)
    → IsKept t
    → any (λ d. d.id == c.id) t.chats ≡ false
    → IsKept (record t { chats = t.chats ++ (c ∷ []) })
unfolding Placed
IsKept-save_chat c t k free = record {
  chats_apart = distinct-append-new (λ d. d.id) c t.chats free k.chats_apart;
  messages_apart = k.messages_apart;
  messages_placed = Placed-append c t.chats t.messages k.messages_placed;
}

pub IsKept-insert_all :
    (items : List DbMessage) (t u : Tables)
    → IsKept t
    → insert_all insert_message items t ≡ some u
    → IsKept u
unfolding insert_message
IsKept-insert_all [] t u k e = let same : t ≡ u = cc in subst IsKept same k
IsKept-insert_all (m ∷ items) t u k e =
    elim (Bool-cases
      (not (any (λ n. n.id == m.id) t.messages) && any (λ c. c.id == m.chat_id) t.chats)) [
        | inl good ↦
            IsKept-insert_all items (record t { messages = t.messages ++ (m ∷ []) }) u
              (record {
                chats_apart = k.chats_apart;
                messages_apart =
                    distinct-append-new (λ n. n.id) m t.messages (ground arith) k.messages_apart;
                messages_placed =
                    All-append (λ n. any (λ c. c.id == n.chat_id) t.chats ≡ true) t.messages
                      (m ∷ []) k.messages_placed (ground arith, tt);
              })
              (rw (insert_all, good) at e)
        | inr bad ↦ let never : none ≡ some u = rw (insert_all, bad) at e in cc
      ]

Placed-map :
    (id parts : String) (chats : List Chat) (messages : List DbMessage)
    → Placed chats messages
    → Placed chats (map (λ m. if m.id == id then record m { parts = parts } else m) messages)
unfolding Placed
Placed-map id parts chats [] h = tt
Placed-map id parts chats (m ∷ messages) (p, h) = elim (Bool-cases (m.id == id)) [
  | inl e ↦ rw e (p, Placed-map id parts chats messages h)
  | inr e ↦ rw e (p, Placed-map id parts chats messages h)
]

pub IsKept-update :
    (id parts : String) (t : Tables)
    → IsKept t
    → IsKept (record t {
      messages = map (λ m. if m.id == id then record m { parts = parts } else m) t.messages;
    })
unfolding Placed
IsKept-update id parts t k = record {
  chats_apart = k.chats_apart;
  messages_apart =
      ap distinct (
        map-key (λ m. m.id) (λ m. m.id == id) (λ m. record m { parts = parts }) t.messages
          (λ m. refl))
      ∙ k.messages_apart;
  messages_placed = Placed-map id parts t.chats t.messages k.messages_placed;
}

pub IsKept-change :
    (f : Chat → Chat) (chat_id : String) (t : Tables)
    → ((c : Chat) → (f c).id ≡ c.id)
    → IsKept t
    → IsKept (record t { chats = map (λ c. if c.id == chat_id then f c else c) t.chats })
unfolding Placed
IsKept-change f chat_id t same k =
    let ids = map-key (λ c. c.id) (λ c. c.id == chat_id) f t.chats same in
    record {
      chats_apart = ap distinct ids ∙ k.chats_apart;
      messages_apart = k.messages_apart;
      messages_placed = Placed-ids t.chats _ t.messages (sym ids) k.messages_placed;
    }

pub IsKept-cut :
    (q : DbMessage → Bool) (t : Tables)
    → IsKept t
    → IsKept (record t { messages = filter q t.messages })
IsKept-cut q t k = record {
  chats_apart = k.chats_apart;
  messages_apart = distinct-filter (λ m. m.id) q t.messages k.messages_apart;
  messages_placed =
      All-filter (λ m. any (λ c. c.id == m.chat_id) t.chats ≡ true) q t.messages k.messages_placed;
}

pub IsKept-without_chats :
    (q : Chat → Bool) (ids : List String) (t : Tables)
    → ((k : String) → contains (chat_ids (filter q t.chats)) k ≡ true → contains ids k ≡ true)
    → IsKept t
    → IsKept (without_chats q ids t)
unfolding Placed
IsKept-without_chats q ids t each k = record {
  chats_apart = distinct-filter (λ c. c.id) (λ c. not (q c)) t.chats k.chats_apart;
  messages_apart =
      distinct-filter (λ m. m.id) (λ m. not (contains ids m.chat_id)) t.messages k.messages_apart;
  messages_placed = Placed-without q (contains ids) t.chats t.messages each k.messages_placed;
}
