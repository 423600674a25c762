-- ===== src/Http/Urls/Routes.antt =====
-- frontend/src/lib/backend/directClient.ts: the routes of `mapLegacyApiPath`, one by one.
use Prim.Native.String
use Prim.Native.String.{len, slice}
use text.Mathlib.TextEquality.{starts_with_iff}
use text.Mathlib.TextLemmas.{append_assoc}
use agent_workflow_fast_api.Base.{
  String, Bool, true, false, ◌||◌, some, ◌≡◌, ◌≢◌, refl, sym, ◌∙◌, ap, subst, arith, ◌==◌, ==-refl,
  string_eq, starts_with, ◌⊎◌, eq_of_==, Bool-cases, inl, inr,
}
use agent_workflow_fast_api.Http.Urls.Params.{Params, truthy, params_get, params_delete}
use agent_workflow_fast_api.Http.Urls.Parts.{has_slash}
use agent_workflow_fast_api.Http.Urls.Mapping.{is_v1_alias}

-- A text that begins with a longer text begins with its beginning.
starts_with_shorter :
    (s t u : String) → starts_with s (String.◌++◌ t u) ≡ true → starts_with s t ≡ true
starts_with_shorter s t u h =
    let (r, e) = (starts_with_iff s (String.◌++◌ t u)).0 h in
    (starts_with_iff s t).1 (String.◌++◌ u r, sym (append_assoc t u r) ∙ e)

equal_alias :
    (path lit : String)
    → starts_with lit "/api/" ≡ true
    → (path == lit) ≡ true
    → starts_with path "/api/" ≡ true
equal_alias path lit h e = subst (λ p. starts_with p "/api/" ≡ true) (sym (eq_of_== path lit e)) h

pub is_v1_alias_api : (path : String) → is_v1_alias path ≡ true → starts_with path "/api/" ≡ true
unfolding is_v1_alias
is_v1_alias_api path h = ground (
  arith,
  equal_alias path "/api/knowledge-bases" refl,
  equal_alias path "/api/admin/members" refl,
  equal_alias path "/api/admin/access-candidates" refl,
  equal_alias path "/api/admin/knowledge-base-grants" refl,
  starts_with_shorter path "/api/" "knowledge-bases/",
  starts_with_shorter path "/api/" "admin/members/",
  starts_with_shorter path "/api/" "admin/knowledge-base-grants/",
)

-- The path of a resource, or a path below it.
abbrev pub Under : String → String → String → Type 0
Under base below path = (path ≡ base) ⊎ (starts_with path below ≡ true)

-- The resources that only get the version put into their path.
abbrev pub Aliased : String → Type 0
Aliased path =
    Under "/api/knowledge-bases" "/api/knowledge-bases/" path
    ⊎ (Under "/api/admin/members" "/api/admin/members/" path
        ⊎ ((path ≡ "/api/admin/access-candidates")
            ⊎ Under "/api/admin/knowledge-base-grants" "/api/admin/knowledge-base-grants/" path))

-- The old routes, each with its new path and what is left of the query.
pub data Route (encode : String → String) (method path : String) (q : Params)
    : String → Params → Type 0 where
  sends_chat : path ≡ "/api/chat" → method ≢ "DELETE" → Route encode method path q "/api/v1/chat" q
  deletes_chat :
      (id : String)
      → path ≡ "/api/chat"
      → method ≡ "DELETE"
      → truthy (params_get "id" q) ≡ some id
      → Route encode method path q (String.◌++◌ "/api/v1/chats/" (encode id)) (params_delete "id" q)
  resumes_stream :
      (id : String)
      → path ≡ String.◌++◌ "/api/chat/" (String.◌++◌ id "/stream")
      → id ≢ ""
      → has_slash id ≡ false
      → Route encode method path q
          (String.◌++◌ "/api/v1/chat/" (String.◌++◌ (encode id) "/stream"))
          q
  lists_messages :
      (id : String)
      → path ≡ "/api/messages"
      → truthy (params_get "chatId" q) ≡ some id
      → Route encode method path q
          (String.◌++◌ (String.◌++◌ "/api/v1/chats/" (encode id)) "/messages")
          (params_delete "chatId" q)
  lists_chats : path ≡ "/api/history" → Route encode method path q "/api/v1/chats" q
  documents : path ≡ "/api/document" → Route encode method path q "/api/v1/documents" q
  suggestions : path ≡ "/api/suggestions" → Route encode method path q "/api/v1/suggestions" q
  models : path ≡ "/api/models" → Route encode method path q "/api/v1/models" q
  uploads_file : path ≡ "/api/files/upload" → Route encode method path q "/api/v1/files/upload" q
  versioned :
      (rest : String)
      → path ≡ String.◌++◌ "/api/" rest
      → Aliased path
      → Route encode method path q (String.◌++◌ "/api/v1/" rest) q

abbrev under_test : String → String → String → Bool
under_test base below path = path == base || starts_with path below

path_cases : (base below path : String) → under_test base below path ≡ true → Under base below path
path_cases base below path h = elim (Bool-cases (path == base)) [
  | inl e ↦ inl (eq_of_== path base e)
  | inr e ↦ inr (ground arith)
]

path_holds : (base below path : String) → Under base below path → under_test base below path ≡ true
path_holds base below path (inl e) = ground (arith, ap (λ x. x == base) e, ==-refl base)
path_holds base below path (inr e) = ground arith

or_cases : (a b : Bool) → (a || b) ≡ true → (a ≡ true) ⊎ (b ≡ true)
or_cases true b h = inl refl
or_cases false b h = inr h

module _ (path : String) where
  abbrev bases : Bool
  bases = under_test "/api/knowledge-bases" "/api/knowledge-bases/" path

  abbrev members : Bool
  members = under_test "/api/admin/members" "/api/admin/members/" path

  abbrev candidates : Bool
  candidates = path == "/api/admin/access-candidates"

  abbrev grants : Bool
  grants = under_test "/api/admin/knowledge-base-grants" "/api/admin/knowledge-base-grants/" path

  pub is_v1_alias-Aliased : is_v1_alias path ≡ true → Aliased path
  unfolding is_v1_alias
  is_v1_alias-Aliased h = elim (or_cases bases (members || (candidates || grants)) h) [
    | inl a ↦ inl (path_cases "/api/knowledge-bases" "/api/knowledge-bases/" path a)
    | inr h₂ ↦ elim (or_cases members (candidates || grants) h₂) [
      | inl a ↦ inr (inl (path_cases "/api/admin/members" "/api/admin/members/" path a))
      | inr h₃ ↦ elim (or_cases candidates grants h₃) [
        | inl a ↦ inr (inr (inl (eq_of_== path "/api/admin/access-candidates" a)))
        | inr a ↦ inr (
            inr (
              inr (
                path_cases "/api/admin/knowledge-base-grants" "/api/admin/knowledge-base-grants/"
                  path a)))
      ]
    ]
  ]

  any_of :
      (a b c d : Bool)
      → (a ≡ true) ⊎ ((b ≡ true) ⊎ ((c ≡ true) ⊎ (d ≡ true)))
      → (a || (b || (c || d))) ≡ true
  any_of a b c d h = ground arith

  tests :
      Aliased path → (bases ≡ true) ⊎ ((members ≡ true) ⊎ ((candidates ≡ true) ⊎ (grants ≡ true)))
  tests (inl u) = inl (path_holds "/api/knowledge-bases" "/api/knowledge-bases/" path u)
  tests (inr (inl u)) = inr (inl (path_holds "/api/admin/members" "/api/admin/members/" path u))
  tests (inr (inr (inl e))) =
      inr (inr (inl (subst (λ x. (x == "/api/admin/access-candidates") ≡ true) (sym e) refl)))
  tests (inr (inr (inr u))) = inr (
      inr (
        inr (
          path_holds "/api/admin/knowledge-base-grants" "/api/admin/knowledge-base-grants/" path
            u)))

  pub Aliased-is_v1_alias : Aliased path → is_v1_alias path ≡ true
  unfolding is_v1_alias
  Aliased-is_v1_alias h = any_of bases members candidates grants (tests h)
