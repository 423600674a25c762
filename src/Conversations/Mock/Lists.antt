-- ===== src/Conversations/Mock/Lists.antt =====
-- frontend/src/lib/db/mock.ts: the lists of messages.
use mathlib.Core.Option
use agent_workflow_fast_api.Base.{
  subst, kept, ==-comm, String, Bool, List, [], ◌∷◌, none, some, ◌≡◌, refl, sym, ap, ◌∙◌, arith,
  ◌==◌, string_eq, ==_iff, eq_of_==, if◌then◌else◌, filter, find?, Bool-cases, inl, inr,
}
use agent_workflow_fast_api.Conversations.Tables.{DbMessage}
use agent_workflow_fast_api.Conversations.Mock.{put_message, set_parts}

-- The messages under a key: all of that chat, and no two with one id.
abbrev pub IsListed : String → List DbMessage → Type 0
IsListed k [] = Unit
IsListed k (m ∷ items) =
    (m.chat_id ≡ k) × (find? (λ n. n.id == m.id) items ≡ none) × IsListed k items

pub find?-put_message :
    (item : DbMessage) (id : String) (items : List DbMessage)
    → find? (λ m. m.id == id) (put_message item items)
      ≡ (if item.id == id then some item else find? (λ m. m.id == id) items)
unfolding put_message
find?-put_message item id [] = refl
find?-put_message item id (m ∷ items) =
    ground (
      arith,
      find?-put_message item id items,
      ==_iff m.id item.id,
      ==_iff m.id id,
      ==_iff item.id id,
    )

pub put_message-IsListed :
    (item : DbMessage) (k : String) (items : List DbMessage)
    → item.chat_id ≡ k
    → IsListed k items
    → IsListed k (put_message item items)
unfolding put_message
put_message-IsListed item k [] same h = (same, refl, tt)
put_message-IsListed item k (m ∷ items) same (own, n, h) = elim (Bool-cases (m.id == item.id)) [
  | inl e ↦ rw e (same, rw (sym (eq_of_== m.id item.id e)) n, h)
  | inr e ↦ rw e (
    own,
    find?-put_message item m.id items ∙ rw (==-comm item.id m.id, e) n,
    put_message-IsListed item k items same h,
  )
]

pub find?-set_parts :
    (id parts key : String) (items : List DbMessage)
    → find? (λ m. m.id == key) (set_parts id parts items) ≡ (
        if id == key
        then Option.map {A = DbMessage}
            (λ m. record m { parts = parts })
            (find? (λ m. m.id == key) items)
        else find? (λ m. m.id == key) items)
unfolding set_parts
find?-set_parts id parts key [] = ground arith
find?-set_parts id parts key (m ∷ items) =
    ground
      (arith, find?-set_parts id parts key items, ==_iff m.id id, ==_iff m.id key, ==_iff id key)

pub set_parts-IsListed :
    (id parts k : String) (items : List DbMessage)
    → IsListed k items
    → IsListed k (set_parts id parts items)
unfolding set_parts
set_parts-IsListed id parts k [] h = tt
set_parts-IsListed id parts k (m ∷ items) (own, n, h) = elim (Bool-cases (m.id == id)) [
  | inl e ↦ rw e (own, n, h)
  | inr e ↦ rw e (
    own,
    find?-set_parts id parts m.id items ∙ rw (==-comm id m.id, e) n,
    set_parts-IsListed id parts k items h,
  )
]

-- No second message of an id is left to be found when the first is dropped.
pub find?-filter :
    (q : DbMessage → Bool) (k id : String) (items : List DbMessage)
    → IsListed k items
    → find? (λ m. m.id == id) (filter q items) ≡ kept q (find? (λ m. m.id == id) items)
find?-filter q k id [] h = refl
find?-filter q k id (m ∷ items) (own, n, h) = elim (Bool-cases (m.id == id)) [
  | inl same ↦
      let gone : find? (λ o. o.id == id) items ≡ none =
        subst (λ i. find? (λ o. o.id == i) items ≡ none) (eq_of_== m.id id same) n in
      elim (Bool-cases (q m)) [
        | inl keep ↦ rw (same, keep) (rw same refl)
        | inr drop ↦ rw (same, drop) (find?-filter q k id items h ∙ ap (kept q) gone)
      ]
  | inr other ↦ elim (Bool-cases (q m)) [
    | inl keep ↦ rw (other, keep) (rw other (find?-filter q k id items h))
    | inr drop ↦ rw (other, drop) (find?-filter q k id items h)
  ]
]

pub filter-IsListed :
    (q : DbMessage → Bool) (k : String) (items : List DbMessage)
    → IsListed k items
    → IsListed k (filter q items)
filter-IsListed q k [] h = tt
filter-IsListed q k (m ∷ items) (own, n, h) = elim (Bool-cases (q m)) [
  | inl e ↦ rw e (own, find?-filter q k m.id items h ∙ ap (kept q) n, filter-IsListed q k items h)
  | inr e ↦ rw e (filter-IsListed q k items h)
]
