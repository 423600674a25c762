-- ===== src/Http/Urls/Sound.antt =====
-- frontend/src/lib/backend/directClient.ts: `mapLegacyApiPath` takes no other routes than those listed.
use Prim.Native.String
use Prim.Native.String.{len, slice}
use text.Mathlib.TextEquality.{starts_with_iff}
use text.Mathlib.TextPositions.{starts_with-append, slice-append_right, len-append}
use agent_workflow_fast_api.Base.{
  String, Bool, true, false, ◌&&◌, not, List, [], ◌∷◌, Option, none, some, ◌≡◌, ◌≢◌, refl, sym, ◌∙◌,
  ap, subst, arith, ◌==◌, ==_iff, string_eq, if◌then◌else◌, eq_of_==, ne_of_==, Bool-cases, inl,
  inr,
}
use agent_workflow_fast_api.Http.Urls.Params.{Params, truthy, params_get}
use agent_workflow_fast_api.Http.Urls.Mapping.{
  to_v1, is_v1_alias, chat_target, other_target, stream_match, split_path,
}
use agent_workflow_fast_api.Http.Urls.Parts.{stream-split_path}
use agent_workflow_fast_api.Http.Urls.Routes.{
  Route, sends_chat, deletes_chat, resumes_stream, lists_messages, lists_chats, documents,
  suggestions, models, uploads_file, versioned, is_v1_alias_api, is_v1_alias-Aliased,
}

pub to_v1_lem : (rest : String) → to_v1 (String.◌++◌ "/api/" rest) ≡ String.◌++◌ "/api/v1/" rest
unfolding to_v1
to_v1_lem rest =
    rw (starts_with-append "/api/" rest, len-append "/api/" rest)
      (ap (String.◌++◌ "/api/v1/") (slice-append_right "/api/" rest))

-- The five parts of the path of a stream.
stream_match_parts :
    (parts : List String) (id : String)
    → stream_match parts ≡ some id
    → (parts ≡ "" ∷ "api" ∷ "chat" ∷ id ∷ "stream" ∷ []) × (id ≢ "")
unfolding stream_match
stream_match_parts [] id h = cc
stream_match_parts (a ∷ []) id h = cc
stream_match_parts (a ∷ b ∷ []) id h = cc
stream_match_parts (a ∷ b ∷ c ∷ []) id h = cc
stream_match_parts (a ∷ b ∷ c ∷ d ∷ []) id h = cc
stream_match_parts (a ∷ b ∷ c ∷ d ∷ e ∷ f ∷ g) id h = cc
stream_match_parts (a ∷ b ∷ c ∷ d ∷ e ∷ []) id h =
    elim (Bool-cases
      (a == "" && (b == "api" && (c == "chat" && (not (d == "") && e == "stream"))))) [
        | inl t ↦
            let same : d ≡ id = some_eq (rw (t, stream_match) at h) in
            let ea : a ≡ "" = ground (arith, ==_iff a "") in
            let eb : b ≡ "api" = ground (arith, ==_iff b "api") in
            let ec : c ≡ "chat" = ground (arith, ==_iff c "chat") in
            let ee : e ≡ "stream" = ground (arith, ==_iff e "stream") in
            let full : (d == "") ≡ false = ground arith in
            (rw (ea, eb, ec, ee, same) refl, subst (λ x. x ≢ "") same (ne_of_== d "" full))
        | inr f ↦ absurd (none_ne (rw (f, stream_match) at h))
      ]
  where
    some_eq : {x y : String} → ◌≡◌ {A = Option String} (some x) (some y) → x ≡ y
    some_eq q = cc

    none_ne : {y : String} → ◌≢◌ {A = Option String} none (some y)
    none_ne q = cc

messages_plain : is_v1_alias "/api/messages" ≡ false
unfolding is_v1_alias
messages_plain = refl

chat_plain : is_v1_alias "/api/chat" ≡ false
unfolding is_v1_alias
chat_plain = refl

if_cases :
    (P : Option String × Params → Type 0) (b : Bool) (x y : Option String × Params)
    → (b ≡ true → P x)
    → (b ≡ false → P y)
    → P (if b then x else y)
if_cases P b x y h k = elim (Bool-cases b) [ inl e ↦ rw e (h e) | inr e ↦ rw e (k e) ]

option_cases :
    (P : Option String × Params → Type 0) (o : Option String) (n : Option String × Params)
    (s : String → Option String × Params)
    → P n
    → ((id : String) → o ≡ some id → P (s id))
    → P (elim o as (λ _. Option String × Params) [ none ↦ n | some id ↦ s id ])
option_cases P none n s h k = h
option_cases P (some x) n s h k = k x refl

module _ (encode : String → String) (method : String) (q : Params) where
  -- A target is one of a route, and without a target the query is as it was.
  abbrev pub Routed : String → Option String × Params → Type 0
  Routed path (none, r) = r ≡ q
  Routed path (some target, r) = Route encode method path q target r

  chat_target-Routed :
      (path : String) → is_v1_alias path ≡ false → Routed path (chat_target encode method path q)
  unfolding chat_target
  chat_target-Routed path plain =
      if_cases (Routed path) (path == "/api/chat") _ _
        (λ e.
          if_cases (Routed path) (method == "DELETE") _ _
            (λ m.
              option_cases (Routed path) (truthy (params_get "id" q)) (none, q) _ refl
                (λ id found.
                  deletes_chat id (eq_of_== path "/api/chat" e) (eq_of_== method "DELETE" m) found))
            (λ m. sends_chat (eq_of_== path "/api/chat" e) (ne_of_== method "DELETE" m)))
        (λ _.
          option_cases (Routed path) (stream_match (split_path path)) (none, q) _ refl
            (λ id found.
              let (parts, full) = stream_match_parts (split_path path) id found in
              let (is_path, no_slash) = stream-split_path path id parts in
              resumes_stream id is_path full no_slash))

  other_target-Routed :
      (path : String) (t : Option String)
      → (is_v1_alias path ≡ false → Routed path (t, q))
      → Routed path (other_target encode path (t, q))
  unfolding other_target
  other_target-Routed path t old =
      if_cases (Routed path) (path == "/api/messages") _ _
        (λ e.
          option_cases (Routed path) (truthy (params_get "chatId" q)) (t, q) _
            (old (subst (λ x. is_v1_alias x ≡ false) (sym (eq_of_== path _ e)) messages_plain))
            (λ id found. lists_messages id (eq_of_== path _ e) found))
        (λ _.
          if_cases (Routed path) (path == "/api/history") _ _ (λ e. lists_chats (eq_of_== path _ e))
            (λ _.
              if_cases (Routed path) (path == "/api/document") _ _
                (λ e. documents (eq_of_== path _ e))
                (λ _.
                  if_cases (Routed path) (path == "/api/suggestions") _ _
                    (λ e. suggestions (eq_of_== path _ e))
                    (λ _.
                      if_cases (Routed path) (path == "/api/models") _ _
                        (λ e. models (eq_of_== path _ e))
                        (λ _.
                          if_cases (Routed path) (path == "/api/files/upload") _ _
                            (λ e. uploads_file (eq_of_== path _ e))
                            (λ _. if_cases (Routed path) (is_v1_alias path) _ _ alias old))))))
    where
      alias : is_v1_alias path ≡ true → Routed path (some (to_v1 path), q)
      alias h =
          let (rest, e) = (starts_with_iff path "/api/").0 (is_v1_alias_api path h) in
          subst (λ target. Route encode method path q target q)
            (sym (ap to_v1 (sym e) ∙ to_v1_lem rest))
            (versioned rest (sym e) (is_v1_alias-Aliased path h))

  chat_target-query :
      (path : String)
      → (path == "/api/chat") ≡ false
      → chat_target encode method path q ≡ ((chat_target encode method path q).0, q)
  unfolding chat_target
  chat_target-query path e = rw e (by_match (stream_match (split_path path)))
    where
      by_match :
          (o : Option String)
          → ◌≡◌ {A = Option String × Params}
              (elim o as (λ _. Option String × Params) [
                | some id ↦
                    (some (String.◌++◌ "/api/v1/chat/" (String.◌++◌ (encode id) "/stream")), q)
                | none ↦ (none, q)
              ])
              (
                (elim o as (λ _. Option String × Params) [
                  | some id ↦
                      (some (String.◌++◌ "/api/v1/chat/" (String.◌++◌ (encode id) "/stream")), q)
                  | none ↦ (none, q)
                ]).0,
                q,
              )
      by_match none = refl
      by_match (some id) = refl

  chat_only : (t : Option String × Params) → other_target encode "/api/chat" t ≡ t
  unfolding other_target is_v1_alias
  chat_only t = refl

  -- Whatever the request, the target that is found is that of a route.
  pub legacy-Routed :
      (path : String) → Routed path (other_target encode path (chat_target encode method path q))
  legacy-Routed path = elim (Bool-cases (path == "/api/chat")) [
    | inr e ↦
        subst (λ t. Routed path (other_target encode path t)) (sym (chat_target-query path e))
          (other_target-Routed path (chat_target encode method path q).0 (λ plain.
            subst (Routed path) (chat_target-query path e) (chat_target-Routed path plain)))
    | inl e ↦
        let same = eq_of_== path "/api/chat" e in
        subst (λ x. Routed x (other_target encode x (chat_target encode method x q))) (sym same)
          (subst (Routed "/api/chat") (sym (chat_only (chat_target encode method "/api/chat" q)))
            (chat_target-Routed "/api/chat" chat_plain))
  ]
