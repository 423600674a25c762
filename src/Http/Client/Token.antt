-- ===== src/Http/Client/Token.antt =====
-- frontend/src/lib/auth/localSession.ts: `getCsrfToken` and its cache, `errorMessage`, and `apiFetch`
-- with it. A call is modelled while no other refresh is under way.
use Prim.Native.String
use agent_workflow_fast_api.Base.{
  ℕ, ◌+◌, ◌-◌, ◌*◌, String, Bool, not, ◌&&◌, List, [], ◌∷◌, Option, none, some, ◌==◌, string_eq,
  ltb, get_or, if◌then◌else◌, Result, ok, err, throw, ◌>>=◌,
}
use agent_workflow_fast_api.Http.Urls.Params.{truthy}
use agent_workflow_fast_api.Http.Message.{
  Response, Payload, Detail, absent, plain, items, object, is_ok, includes, RequestInit, Input, url,
}
use agent_workflow_fast_api.Http.Client.Fetch.{
  Platform, Client, ApiError, auth_failed, Api, api_fetch_with,
}

abbrev pub csrf_token_max_age_ms : ℕ
csrf_token_max_age_ms = 60 * 60 * 1000

abbrev pub csrf_refresh_margin_ms : ℕ
csrf_refresh_margin_ms = 5 * 60 * 1000

-- The JSON body, if the response says that it is one.
unfoldable pub response_payload : Response → Option Payload
response_payload r = if includes (get_or r.content_type "") "application/json" then r.json else none

-- `.map((item) => item.msg).filter(Boolean).join(", ")`
unfoldable pub join_present : List (Option String) → String
join_present [] = ""
join_present (m ∷ ms) =
    let rest = join_present ms in
    elim (truthy m) [
      | none ↦ rest
      | some s ↦ if rest == "" then s else String.◌++◌ s (String.◌++◌ ", " rest)
    ]

abbrev default_message : String
default_message = "Authentication request failed."

unfoldable pub payload_message : Payload → Detail → String
payload_message p (items ms) = join_present ms
payload_message p (object m) = get_or m default_message
payload_message p (plain s) = get_or p.message s
payload_message p absent = get_or p.message default_message

unfoldable pub error_message : Option Payload → String
unfolding payload_message
error_message none = default_message
error_message (some p) = payload_message p p.detail

abbrev pub refuse {ℓ} : {A : Type ℓ} → Response → Result ApiError A
refuse r = err (auth_failed r.status (error_message (response_payload r)))

abbrev pub csrf_init : RequestInit
csrf_init = record { method = none; headers = none; credentials = some "include"; body = none }

abbrev pub csrf_url : Input
csrf_url = url (record { pathname = "/api/v1/auth/csrf"; query = [] })

-- A token has to be a text that is not empty.
abbrev pub token_of : Option Payload → Option String
token_of none = none
token_of (some p) = truthy p.csrf_token

abbrev pub offered_token : Response → Option String
offered_token r = token_of (response_payload r)

unfoldable pub store_token : Platform → String → Api String
store_token p token s = (
  ok token,
  record s {
    csrf_token = some token;
    csrf_refresh_at = (p.clock s.sent + csrf_token_max_age_ms) - csrf_refresh_margin_ms;
  },
)

unfoldable pub accept_token : Platform → Response → Api String
accept_token p r s = elim (offered_token r) [
  | none ↦ (refuse r, s)
  | some token ↦ if is_ok r then store_token p token s else (refuse r, s)
]

-- The token request is a GET: `apiFetch` asks for no token then, so any source of tokens will do.
unfoldable pub fetch_csrf : Platform → Api Response
fetch_csrf p = api_fetch_with p (λ force. throw (auth_failed 0 "")) csrf_url csrf_init

unfoldable pub refresh_token : Platform → Api String
refresh_token p = do response ← fetch_csrf p; accept_token p response

-- The cached token, while it is fresh.
unfoldable pub cached_token : Platform → Bool → Client → Option String
cached_token p force s =
    if not force && ltb (p.clock s.sent) s.csrf_refresh_at then truthy s.csrf_token else none

unfoldable pub get_csrf_token : Platform → Bool → Api String
get_csrf_token p force s = elim (cached_token p force s) [
  | some token ↦ (ok token, s)
  | none ↦ refresh_token p s
]

unfoldable pub api_fetch : Platform → Input → RequestInit → Api Response
api_fetch p = api_fetch_with p (get_csrf_token p)
