-- ===== src/Conversations/Pages.antt =====
-- frontend/src/lib/db/queries.ts: which chats `getChatsByUserId` returns.
use native.Mathlib.Numerals.{add-one}
use mathlib.Core.List.{Perm, Pairwise}
use agent_workflow_fast_api.Base.{
  ℕ, zero, suc, ◌+◌, ◌≤◌, String, Bool, true, false, ◌&&◌, List, [], ◌∷◌, Option, none, some, ◌≡◌,
  refl, ap, arith, ◌==◌, string_eq, ltb, length, filter, find?, head?, take, Result, ok, err, after,
  resolve, ◌>>=◌, Bool-cases, inl, inr,
}
use agent_workflow_fast_api.Http.Urls.Params.{truthy}
use agent_workflow_fast_api.Conversations.Tables.{Tables, Chat}
use agent_workflow_fast_api.Conversations.Errors.{ChatbotError}
use agent_workflow_fast_api.Conversations.Statements.{
  Server, Store, Failure, raised, bad_request_database, wrapped, statement,
}
use agent_workflow_fast_api.Conversations.Queries.{owned_by}
use agent_workflow_fast_api.Conversations.Paging.{
  Bound, newer_than, older_than, unbounded, within, ChatPage, page_of, sorted_rows, query_chats,
  found_or_thrown, bound_at, choose_bound, get_chats_by_user_id,
}

module _ {A : Type 0} where
  length-take-suc : (n : ℕ) (xs : List A) → ltb n (length (take (suc n) xs)) ≡ ltb n (length xs)
  length-take-suc n [] = refl
  length-take-suc zero (x ∷ xs) = ground arith
  length-take-suc (suc n) (x ∷ xs) = ground (arith, length-take-suc n xs)

  take-take-suc : (n : ℕ) (xs : List A) → take n (take (suc n) xs) ≡ take n xs
  take-take-suc zero xs = refl
  take-take-suc (suc n) [] = refl
  take-take-suc (suc n) (x ∷ xs) = ap (λ r. x ∷ r) (take-take-suc n xs)

  take_short : (n : ℕ) (xs : List A) → ltb n (length xs) ≡ false → take (suc n) xs ≡ take n xs
  take_short zero [] h = refl
  take_short (suc n) [] h = refl
  take_short zero (x ∷ xs) h = ground arith
  take_short (suc n) (x ∷ xs) h = ap (λ r. x ∷ r) (take_short n xs (ground arith))

  head?-take-filter : (q : A → Bool) (xs : List A) → head? (take 1 (filter q xs)) ≡ find? q xs
  head?-take-filter q [] = refl
  head?-take-filter q (x ∷ xs) = ground (arith, head?-take-filter q xs)

page_of-take :
    (limit : ℕ) (rows : List Chat)
    → page_of limit (take (suc limit) rows)
      ≡ record { chats = take limit rows; has_more = ltb limit (length rows) }
unfolding page_of
page_of-take limit rows = elim (Bool-cases (ltb limit (length rows))) [
  | inl more ↦ rw (length-take-suc limit rows, more, take-take-suc limit rows) refl
  | inr less ↦ rw (length-take-suc limit rows, less, take_short limit rows less) refl
]

module _ (user_id workspace_id : String) where
  -- The user's chat with the id.
  abbrev named_chat : String → Tables → Option Chat
  named_chat cursor t = find? (λ c. c.id == cursor && owned_by user_id workspace_id c) t.chats

  abbrev bound_by : (ℕ → Bound) → Option Chat → Option Bound
  bound_by bound none = none
  bound_by bound (some c) = some (bound c.created_at)

  -- The chats that the cursors ask for; an empty cursor asks for nothing, and the first cursor that
  -- is given counts.
  abbrev pub asked_bound : Option String → Option String → Tables → Option Bound
  asked_bound (some cursor) ending_before t = bound_by newer_than (named_chat cursor t)
  asked_bound none (some cursor) t = bound_by older_than (named_chat cursor t)
  asked_bound none none t = some unbounded

-- A page is the beginning of a list of all the chats that the cursors ask for, newest first.
pub record IsPage (user_id workspace_id : String) (limit : ℕ) (bound : Bound) (t : Tables)
    (page : ChatPage) : Type 0 where
  pub rows : List Chat
  pub complete : Perm rows (filter (λ c. within bound c && owned_by user_id workspace_id c) t.chats)
  pub newest_first : Pairwise (λ a b. b.created_at ≤ a.created_at) rows
  pub first : page.chats ≡ take limit rows
  pub more : page.has_more ≡ ltb limit (length rows)

-- What the call answers once the bound is known, or is not.
abbrev pub Answer :
    String → String → ℕ → Tables → Option Bound → Result ChatbotError ChatPage × Store → Type 0
Answer user_id workspace_id limit t none r = (r.0 ≡ err bad_request_database) × (r.1.tables ≡ t)
Answer user_id workspace_id limit t (some bound) r =
    (page : ChatPage) × (r.0 ≡ ok page)
    × (r.1.tables ≡ t)
    × IsPage user_id workspace_id limit bound t page

module _ (p : Server) (user_id workspace_id : String) (online : (n : ℕ) → p.online n ≡ true) where
  served : Store → Store
  served s = record s { statements = suc s.statements }

  bound_at_lem :
      (cursor : String) (dir : ℕ → Bound) (s : Store)
      → bound_at p user_id workspace_id cursor dir s
        ≡ found_or_thrown p user_id workspace_id cursor dir
            (named_chat user_id workspace_id cursor s.tables)
            (served s)
  unfolding bound_at statement served
  bound_at_lem cursor dir s = rw (online s.statements) (
      ap (λ o. found_or_thrown p user_id workspace_id cursor dir o (served s))
        (head?-take-filter (λ c. c.id == cursor && owned_by user_id workspace_id c) s.tables.chats))

  abbrev Chosen : Tables → Option Bound → Result Failure Bound × Store → Type 0
  Chosen t (some bound) r = (r.0 ≡ ok bound) × (r.1.tables ≡ t)
  Chosen t none r = (e : ChatbotError) × (r.0 ≡ err (raised e)) × (r.1.tables ≡ t)

  found-Chosen :
      (cursor : String) (dir : ℕ → Bound) (o : Option Chat) (s : Store)
      → Chosen s.tables
          (bound_by user_id workspace_id dir o)
          (found_or_thrown p user_id workspace_id cursor dir o s)
  found-Chosen cursor dir none s = (_, refl, refl)
  found-Chosen cursor dir (some c) s = (refl, refl)

  bound_at-Chosen :
      (cursor : String) (dir : ℕ → Bound) (s : Store)
      → Chosen s.tables
          (bound_by user_id workspace_id dir (named_chat user_id workspace_id cursor s.tables))
          (bound_at p user_id workspace_id cursor dir s)
  unfolding served
  bound_at-Chosen cursor dir s =
      rw (bound_at_lem cursor dir s)
        (found-Chosen cursor dir (named_chat user_id workspace_id cursor s.tables) (served s))

  choose_bound-Chosen :
      (after_this before_this : Option String) (s : Store)
      → Chosen s.tables
          (asked_bound user_id workspace_id after_this before_this s.tables)
          (choose_bound p user_id workspace_id after_this before_this s)
  unfolding choose_bound
  choose_bound-Chosen (some cursor) before_this s = bound_at-Chosen cursor newer_than s
  choose_bound-Chosen none (some cursor) s = bound_at-Chosen cursor older_than s
  choose_bound-Chosen none none s = (refl, refl)

  page_of-IsPage :
      (limit : ℕ) (bound : Bound) (t : Tables)
      → let rows = sorted_rows p user_id workspace_id bound t in
        IsPage user_id workspace_id limit bound t (page_of limit (take (limit + 1) rows))
  page_of-IsPage limit bound t =
      let rows = sorted_rows p user_id workspace_id bound t in
      let page : page_of limit (take (limit + 1) rows)
          ≡ record { chats = take limit rows; has_more = ltb limit (length rows) } =
        rw (add-one limit) (page_of-take limit rows) in
      record {
        rows = rows;
        complete = p.engine.desc-perm Chat (λ c. c.created_at) _;
        newest_first = p.engine.desc-sorted Chat (λ c. c.created_at) _;
        first = ap (λ x. x.chats) page;
        more = ap (λ x. x.has_more) page;
      }

  rest-Answer :
      (limit : ℕ) (t : Tables) (o : Option Bound) (r : Result Failure Bound × Store)
      → Chosen t o r
      → Answer user_id workspace_id limit t o (
          wrapped (
            after r (λ bound. do
              filtered_chats ← query_chats p user_id workspace_id limit bound
              resolve (page_of limit filtered_chats))))
  unfolding query_chats statement
  rest-Answer limit t none (ok b, s) (e, h, k) = cc
  rest-Answer limit t none (err e, s) (f, h, k) = (refl, k)
  rest-Answer limit t (some bound) (err e, s) (h, k) = cc
  rest-Answer limit t (some bound) (ok b, s) (h, k) =
      let same : b ≡ bound = ground arith in
      rw (online s.statements, same, k)
        (
          page_of limit (take (limit + 1) (sorted_rows p user_id workspace_id bound t)),
          refl,
          refl,
          page_of-IsPage limit bound t,
        )

-- If every statement is served, a cursor that names no chat of the user in the workspace makes
-- `getChatsByUserId` fail with the error `bad_request:database`; otherwise the call returns the first
-- chats, as many as the limit says, of a newest-first list of all the user's chats there that the
-- cursors ask for, and says whether that list has more. It changes no table.
pub get_chats_by_user_id_lem :
    (p : Server) (user_id workspace_id : String) (limit : ℕ)
    (starting_after ending_before : Option String) (s : Store)
    (online : (n : ℕ) → p.online n ≡ true)
    → Answer user_id workspace_id limit s.tables
        (asked_bound user_id workspace_id (truthy starting_after) (truthy ending_before) s.tables)
        (get_chats_by_user_id p user_id workspace_id limit starting_after ending_before s)
unfolding get_chats_by_user_id
get_chats_by_user_id_lem p user_id workspace_id limit starting_after ending_before s online =
    rest-Answer p user_id workspace_id online limit s.tables _ _ (
      choose_bound-Chosen p user_id workspace_id online (truthy starting_after)
        (truthy ending_before) s)
