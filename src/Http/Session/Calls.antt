-- ===== src/Http/Session/Calls.antt =====
-- frontend/src/lib/auth/localSession.ts: `getLocalSession`, `signInWithLocalSession`,
-- `signOutLocalSession`, `activateLocalInvitation` and `changeLocalPassword`.
use agent_workflow_fast_api.Base.{
  suc, String, Bool, true, false, not, ◌&&◌, [], ◌∷◌, Option, none, some, ◌==◌, string_eq,
  number_eq, if◌then◌else◌, Result, ok, resolve, ◌>>=◌, ◌>>◌,
}
use agent_workflow_fast_api.Http.Urls.Params.{truthy}
use agent_workflow_fast_api.Http.Message.{
  Response, Payload, LocalSessionUser, Fields, Headers, is_ok, RequestInit, Input, url,
}
use agent_workflow_fast_api.Http.Client.Fetch.{
  Platform, ApiError, Api, csrf_header, invalidate_local_csrf_token,
}
use agent_workflow_fast_api.Http.Client.Token.{response_payload, refuse, get_csrf_token, api_fetch}

pub record LocalSessionResponse : Type 0 where
  pub authenticated : Bool
  pub user : Option LocalSessionUser

abbrev pub auth_url : String → Input
auth_url path = url (record { pathname = path; query = [] })

abbrev pub post_init : Headers → Option Fields → RequestInit
post_init headers body = record {
  method = some "POST";
  headers = some headers;
  credentials = some "include";
  body = body;
}

abbrev pub json_headers : String → Headers
json_headers token = ("content-type", "application/json") ∷ (csrf_header, token) ∷ []

-- A session needs a good status, a payload and a Boolean in it.
unfoldable pub session_of : Response → Option Payload → Result ApiError LocalSessionResponse
session_of r none = refuse r
session_of r (some x) = elim x.authenticated [
  | none ↦ refuse r
  | some b ↦ if is_ok r then ok (record { authenticated = b; user = x.user }) else refuse r
]

unfoldable pub read_session : Response → Api LocalSessionResponse
read_session r s = (session_of r (response_payload r), s)

-- `window.dispatchEvent(new Event("asianode-auth-change"))`
unfoldable pub announce : Api (Unit {0})
announce s = (ok tt, record s { auth_changes = suc s.auth_changes })

abbrev pub invalidate_if : Bool → Api (Unit {0})
invalidate_if true = invalidate_local_csrf_token
invalidate_if false = resolve tt

-- `if (!response.ok) { if (response.status === 403) invalidate…; throw … }`
unfoldable pub require_ok : Response → Api (Unit {0})
require_ok r =
    if is_ok r then resolve tt else (do invalidate_if (r.status == 403); λ s. (refuse r, s))

unfoldable pub get_local_session : Platform → Api LocalSessionResponse
get_local_session p = do
  response ←
      api_fetch p (auth_url "/api/v1/auth/session")
        (record { method = none; headers = none; credentials = some "include"; body = none })
  read_session response

unfoldable pub sign_in_with_local_session : Platform → String → String → Api LocalSessionResponse
sign_in_with_local_session p email password = do
  token ← get_csrf_token p false
  response ←
      api_fetch p (auth_url "/api/v1/auth/login")
        (post_init (json_headers token) (some (("email", email) ∷ ("password", password) ∷ [])))
  invalidate_if (not (is_ok response) && (response.status == 403))
  session ← read_session response
  announce
  resolve session

unfoldable pub sign_out_local_session : Platform → Api (Unit {0})
sign_out_local_session p = do
  token ← get_csrf_token p false
  response ←
      api_fetch p (auth_url "/api/v1/auth/logout") (post_init ((csrf_header, token) ∷ []) none)
  require_ok response
  invalidate_local_csrf_token
  announce

-- `name: name || undefined`
abbrev pub optional_field : String → Option String → Fields
optional_field key value = elim (truthy value) [ none ↦ [] | some v ↦ (key, v) ∷ [] ]

-- What `activateLocalInvitation` and `changeLocalPassword` do with their path and body.
unfoldable pub post_for_session : Platform → String → Fields → Api LocalSessionResponse
post_for_session p path body = do
  token ← get_csrf_token p false
  response ← api_fetch p (auth_url path) (post_init (json_headers token) (some body))
  require_ok response
  session ← read_session response
  announce
  resolve session

unfoldable pub activate_local_invitation :
    Platform → String → String → Option String → Api LocalSessionResponse
activate_local_invitation p token password name =
    post_for_session p "/api/v1/auth/activate"
      (("token", token) ∷ ("password", password) ∷ optional_field "name" name)

unfoldable pub change_local_password : Platform → String → String → Api LocalSessionResponse
change_local_password p current_password new_password =
    post_for_session p "/api/v1/auth/change-password"
      (("currentPassword", current_password) ∷ ("newPassword", new_password) ∷ [])
