-- ===== src/Http/Urls/Mapping.antt =====
-- frontend/src/lib/backend/directClient.ts: `mapLegacyApiPath` and `appendWorkspaceId`, with the
-- settings of mode.ts. An address is its path and its query; `encodeURIComponent` is a parameter.
use Prim.Native.Char.{Char, code}
use Prim.Native.String
use Prim.Native.String.{len, slice}
use agent_workflow_fast_api.Base.{
  String, Bool, not, ◌&&◌, ◌||◌, List, [], ◌∷◌, Option, none, some, ◌==◌, string_eq, number_eq,
  if◌then◌else◌, starts_with,
}
use agent_workflow_fast_api.Http.Urls.Params.{Params, truthy, params_get, params_set, params_delete}

-- The constants of mode.ts, the base path of the deployment, and the `pathname` of `new URL(path, base)`
-- for a path, which is the path itself but for such as `/a/..` or `//host/a`.
pub record Mode : Type 0 where
  pub is_direct : Bool
  pub is_proxy : Bool
  pub has_window : Bool
  pub is_single_workspace : Bool
  pub workspace_id : String
  pub base_path : String
  pub url_pathname : String → String

pub record Address : Type 0 where
  pub pathname : String
  pub query : Params

infixr 66 ◌<>◌
abbrev ◌<>◌ : String → String → String
s <> t = String.◌++◌ s t

unfoldable pub path_without_base_path : Mode → String → String
path_without_base_path mode pathname =
    if not (mode.base_path == "") && starts_with pathname (mode.base_path <> "/")
    then slice pathname (len mode.base_path) (len pathname)
    else pathname

unfoldable pub is_workspace_scoped : String → Bool
is_workspace_scoped path =
    starts_with path "/api/v1/chat"
    || (starts_with path "/api/v1/chats"
        || (starts_with path "/api/v1/documents"
            || (starts_with path "/api/v1/suggestions"
                || (starts_with path "/api/v1/knowledge-"
                    || (starts_with path "/api/v1/business-import"
                        || (starts_with path "/api/v1/admin/"
                            || (path == "/api/v1/files/upload"
                                || (path == "/api/v1/products"
                                    || path == "/api/v1/content/search"))))))))

unfoldable pub chosen_workspace : Mode → Params → Option String
chosen_workspace mode query =
    if mode.is_single_workspace
    then some mode.workspace_id
    else elim (truthy (params_get "workspace_id" query)) [
      | some given ↦ some given
      | none ↦ if mode.is_proxy then some mode.workspace_id else none
    ]

unfoldable pub append_workspace_id : Mode → Address → Address
append_workspace_id mode url =
    if is_workspace_scoped url.pathname
    then elim (truthy (chosen_workspace mode url.query)) [
      | some id ↦ record url { query = params_set "workspace_id" id url.query }
      | none ↦ url
    ]
    else url

abbrev push_front : Char → List String → List String
push_front c [] = String.◌∷◌ c "" ∷ []
push_front c (word ∷ words) = String.◌∷◌ c word ∷ words

-- The parts between the slashes.
unfoldable pub split_path : String → List String
split_path String.[] = "" ∷ []
split_path (String.◌∷◌ c s) =
    let parts = split_path s in if code c == b'/' then "" ∷ parts else push_front c parts

-- What `/^\/api\/chat\/([^/]+)\/stream$/` captures.
unfoldable pub stream_match : List String → Option String
stream_match (root ∷ api ∷ chat ∷ id ∷ stream ∷ []) =
    if root == "" && (api == "api" && (chat == "chat" && (not (id == "") && stream == "stream")))
    then some id
    else none
stream_match _ = none

-- `path.replace(/^\/api\//, "/api/v1/")`
unfoldable pub to_v1 : String → String
to_v1 path = if starts_with path "/api/" then "/api/v1/" <> slice path 5 (len path) else path

-- `path === base || path.startsWith(base + "/")`
abbrev under : String → String → Bool
under path base = path == base || starts_with path (base <> "/")

-- An address with no legacy path keeps its own.
abbrev pub target_address : Mode → Address → Option String × Params → Address
target_address mode source (none, query) = record {
  pathname = mode.url_pathname source.pathname;
  query = query;
}
target_address mode source (some target, query) = record {
  pathname = mode.url_pathname target;
  query = query;
}

-- The paths that only get the version put in.
unfoldable pub is_v1_alias : String → Bool
is_v1_alias path =
    under path "/api/knowledge-bases"
    || (under path "/api/admin/members"
        || (path == "/api/admin/access-candidates"
            || under path "/api/admin/knowledge-base-grants"))

module _ (encode : String → String) where
  abbrev chat_path : String → String
  chat_path id = "/api/v1/chats/" <> encode id

  -- The first block: the chat routes.
  unfoldable pub chat_target : String → String → Params → Option String × Params
  chat_target method path query =
      if path == "/api/chat"
      then if method == "DELETE"
        then elim (truthy (params_get "id" query)) [
          | some id ↦ (some (chat_path id), params_delete "id" query)
          | none ↦ (none, query)
        ]
        else (some "/api/v1/chat", query)
      else elim (stream_match (split_path path)) [
        | some id ↦ (some ("/api/v1/chat/" <> (encode id <> "/stream")), query)
        | none ↦ (none, query)
      ]

  -- The second block, which may replace the target of the first.
  unfoldable pub other_target : String → Option String × Params → Option String × Params
  other_target path (target, query) =
      if path == "/api/messages"
      then elim (truthy (params_get "chatId" query)) [
        | some id ↦ (some (chat_path id <> "/messages"), params_delete "chatId" query)
        | none ↦ (target, query)
      ]
      else if path == "/api/history"
      then (some "/api/v1/chats", query)
      else if path == "/api/document"
      then (some "/api/v1/documents", query)
      else if path == "/api/suggestions"
      then (some "/api/v1/suggestions", query)
      else if path == "/api/models"
      then (some "/api/v1/models", query)
      else if path == "/api/files/upload"
      then (some "/api/v1/files/upload", query)
      else if is_v1_alias path
      then (some (to_v1 path), query)
      else (target, query)

  unfoldable pub legacy_target : Mode → Address → String → Option String × Params
  legacy_target mode source method =
      let path = path_without_base_path mode source.pathname in
      other_target path (chat_target method path source.query)

  unfoldable pub map_legacy_api_path : Mode → Address → String → Address
  map_legacy_api_path mode source method =
      append_workspace_id mode (target_address mode source (legacy_target mode source method))
