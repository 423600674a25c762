-- ===== src/Http/Urls/Complete.antt =====
-- frontend/src/lib/backend/directClient.ts: `mapLegacyApiPath` takes each of the routes listed.
use Prim.Native.String
use text.Mathlib.TextEquality.{starts_with_iff}
use text.Mathlib.TextLemmas.{append_assoc}
use agent_workflow_fast_api.Base.{
  List, ◌++◌, ne_of_==, String, Bool, true, false, [], ◌∷◌, Option, none, some, ◌≡◌, ◌≢◌, refl, sym,
  ◌∙◌, ap, subst, ◌==◌, ==_of_ne, string_eq, Bool-cases, inl, inr,
}
use agent_workflow_fast_api.Http.Urls.Params.{Params}
use agent_workflow_fast_api.Http.Urls.Mapping.{
  to_v1, is_v1_alias, chat_target, other_target, stream_match, split_path,
}
use agent_workflow_fast_api.Http.Urls.Parts.{split_path-append, split_path-stream}
use agent_workflow_fast_api.Http.Urls.Routes.{
  Under, Aliased, Route, sends_chat, deletes_chat, resumes_stream, lists_messages, lists_chats,
  documents, suggestions, models, uploads_file, versioned, is_v1_alias-Aliased, Aliased-is_v1_alias,
}
use agent_workflow_fast_api.Http.Urls.Sound.{to_v1_lem}

none_ne : {y : String} → ◌≢◌ {A = Option String} none (some y)
none_ne q = cc

false_ne : ◌≢◌ {A = Bool} false true
false_ne q = cc

stream_match-stream :
    (id : String) → id ≢ "" → stream_match ("" ∷ "api" ∷ "chat" ∷ id ∷ "stream" ∷ []) ≡ some id
unfolding stream_match
stream_match-stream id n = rw (==_of_ne id "" n) refl

-- The resource that a path of the old API is about.
abbrev third : List String → String
third (root ∷ api ∷ resource ∷ below) = resource
third _ = ""

Under-third :
    (base below path k : String)
    → below ≡ String.◌++◌ base "/"
    → third (split_path base) ≡ k
    → ((l : List String) → third (split_path base ++ l) ≡ k)
    → Under base below path
    → third (split_path path) ≡ k
Under-third base below path k whole here there (inl e) = ap (λ x. third (split_path x)) e ∙ here
Under-third base below path k whole here there (inr h) =
    let (x, e) = (starts_with_iff path below).0 h in
    ap (λ y. third (split_path y))
      (sym e ∙ ap (λ b. String.◌++◌ b x) whole ∙ append_assoc base "/" x)
    ∙ ap third (split_path-append base x)
    ∙ there (split_path x)

chat_alone : (path : String) → third (split_path path) ≡ "chat" → ¬ Aliased path
unfolding split_path
chat_alone path h (inl u) = ne_of_== "chat" "knowledge-bases" refl (
    sym h
    ∙ Under-third "/api/knowledge-bases" "/api/knowledge-bases/" path _ refl refl (λ l. refl) u)
chat_alone path h (inr (inl u)) =
    ne_of_== "chat" "admin" refl (
      sym h ∙ Under-third "/api/admin/members" "/api/admin/members/" path _ refl refl (λ l. refl) u)
chat_alone path h (inr (inr (inl e))) =
    ne_of_== "chat" "admin" refl (sym h ∙ ap (λ x. third (split_path x)) e)
chat_alone path h (inr (inr (inr u))) = ne_of_== "chat" "admin" refl (
    sym h
    ∙ Under-third "/api/admin/knowledge-base-grants" "/api/admin/knowledge-base-grants/" path _ refl
        refl (λ l. refl) u)

module _ (encode : String → String) (method : String) (q : Params) where
  abbrev legacy : String → Option String × Params
  legacy path = other_target encode path (chat_target encode method path q)

  -- A path that is a stream is not one that is none, and so for the paths with a version put in.
  not_stream :
      (path other id : String)
      → stream_match (split_path path) ≡ some id
      → stream_match (split_path other) ≡ none
      → (path == other) ≡ false
  not_stream path other id h k =
      ==_of_ne path other λ e. none_ne (sym k ∙ ap (λ x. stream_match (split_path x)) (sym e) ∙ h)

  not_alias :
      (path other : String)
      → is_v1_alias path ≡ true
      → is_v1_alias other ≡ false
      → (path == other) ≡ false
  not_alias path other h k = ==_of_ne path other λ e. false_ne (sym k ∙ ap is_v1_alias (sym e) ∙ h)

  streams :
      (path id : String)
      → stream_match (split_path path) ≡ some id
      → is_v1_alias path ≡ false
      → legacy path ≡ (some (String.◌++◌ "/api/v1/chat/" (String.◌++◌ (encode id) "/stream")), q)
  unfolding other_target chat_target stream_match split_path
  streams path id h plain =
      let a = not_stream path "/api/chat" id h refl in
      let b = not_stream path "/api/messages" id h refl in
      let c = not_stream path "/api/history" id h refl in
      let d = not_stream path "/api/document" id h refl in
      let e = not_stream path "/api/suggestions" id h refl in
      let f = not_stream path "/api/models" id h refl in
      let g = not_stream path "/api/files/upload" id h refl in
      rw (a, b, c, d, e, f, g, plain, h) refl

  aliases : (path : String) → is_v1_alias path ≡ true → legacy path ≡ (some (to_v1 path), q)
  unfolding other_target chat_target is_v1_alias
  aliases path h =
      let a = not_alias path "/api/chat" h refl in
      let b = not_alias path "/api/messages" h refl in
      let c = not_alias path "/api/history" h refl in
      let d = not_alias path "/api/document" h refl in
      let e = not_alias path "/api/suggestions" h refl in
      let f = not_alias path "/api/models" h refl in
      let g = not_alias path "/api/files/upload" h refl in
      rw (a, b, c, d, e, f, g, h) (by_match (stream_match (split_path path)))
    where
      by_match :
          (o : Option String)
          → ◌≡◌ {A = Option String × Params}
              (
                some (to_v1 path),
                (elim o as (λ _. Option String × Params) [
                  | some id ↦
                      (some (String.◌++◌ "/api/v1/chat/" (String.◌++◌ (encode id) "/stream")), q)
                  | none ↦ (none, q)
                ]).1,
              )
              (some (to_v1 path), q)
      by_match none = refl
      by_match (some id) = refl

  -- The target and the query of a route are those found.
  pub legacy-Route :
      (path target : String) (r : Params)
      → Route encode method path q target r
      → legacy path ≡ (some target, r)
  unfolding other_target chat_target stream_match split_path is_v1_alias
  legacy-Route path target r (sends_chat e n) =
      subst (λ x. legacy x ≡ (some target, r)) (sym e) (rw (==_of_ne method "DELETE" n) refl)
  legacy-Route path target r (deletes_chat id e m found) =
      subst (λ x. legacy x ≡ (some target, r)) (sym e) (rw (m, found) refl)
  legacy-Route path target r (resumes_stream id is_path full no_slash) =
      streams path id
        (ap (λ x. stream_match (split_path x)) is_path
          ∙ ap stream_match (split_path-stream id no_slash)
          ∙ stream_match-stream id full)
        (elim (Bool-cases (is_v1_alias path)) [
          | inl a ↦ absurd (
              chat_alone path
                (ap (λ x. third (split_path x)) is_path ∙ ap third (split_path-stream id no_slash))
                (is_v1_alias-Aliased path a))
          | inr a ↦ a
        ])
  legacy-Route path target r (lists_messages id e found) =
      subst (λ x. legacy x ≡ (some target, r)) (sym e) (rw found refl)
  legacy-Route path target r (lists_chats e) = subst (λ x. legacy x ≡ (some target, r)) (sym e) refl
  legacy-Route path target r (documents e) = subst (λ x. legacy x ≡ (some target, r)) (sym e) refl
  legacy-Route path target r (suggestions e) = subst (λ x. legacy x ≡ (some target, r)) (sym e) refl
  legacy-Route path target r (models e) = subst (λ x. legacy x ≡ (some target, r)) (sym e) refl
  legacy-Route path target r (uploads_file e) =
      subst (λ x. legacy x ≡ (some target, r)) (sym e) refl
  legacy-Route path target r (versioned rest e a) =
      aliases path (Aliased-is_v1_alias path a)
      ∙ ap (λ t. (some t, q)) (ap to_v1 e ∙ to_v1_lem rest)
