-- ===== src/Http/Fetchers.antt =====
-- frontend/src/lib/utils.ts: `fetcher` and `fetchWithErrorHandlers` over `apiFetch`. Whether the browser
-- is offline is a parameter.
pub mod RoundTrip
use agent_workflow_fast_api.Base.{
  ℕ, String, Bool, true, false, not, List, [], ◌∷◌, Option, none, some, get_or, if◌then◌else◌,
  Result, ok, err, Io, after, resolve, throw, ◌>>=◌, ◌>>◌,
}
use agent_workflow_fast_api.Http.Message.{
  Response, Payload, Detail, absent, plain, items, object, is_ok, RequestInit, Input,
}
use agent_workflow_fast_api.Http.Client.Fetch.{Platform, Client, ApiError, or_else}
use agent_workflow_fast_api.Http.Client.Token.{api_fetch}
use agent_workflow_fast_api.Conversations.Errors.Codes.{RaisedError, raised_error}

-- An error of `apiFetch`, a `ChatbotError`, or a body that is no JSON.
pub data FetcherError : Type 0 where
  fetch_error : ApiError → FetcherError
  chatbot_error : RaisedError → FetcherError
  no_json : FetcherError

-- A detail that is a text.
abbrev pub text_detail : Detail → Option String
text_detail (plain s) = some s
text_detail _ = none

-- `payload?.code ?? 'offline:chat'` and `payload?.cause ?? payload?.message ?? payload?.detail`
unfoldable pub response_error : Option Payload → RaisedError
response_error none = raised_error "offline:chat" none none
response_error (some x) =
    raised_error (get_or x.code "offline:chat")
      (or_else x.cause (or_else x.message (text_detail x.detail))) x.request_id

abbrev pub bare_init : RequestInit
bare_init = record { method = none; headers = none; credentials = none; body = none }

abbrev pub json_of : Option Payload → Result FetcherError Payload
json_of none = err no_json
json_of (some x) = ok x

abbrev pub read_json : Result ApiError Response × Client → Result FetcherError Payload × Client
read_json (err e, s) = (err (fetch_error e), s)
read_json (ok r, s) =
    if is_ok r then (json_of r.json, s) else (err (chatbot_error (response_error r.json)), s)

unfoldable pub fetcher : Platform → Input → Io Client FetcherError Payload
fetcher p input s = read_json (api_fetch p input bare_init s)

abbrev pub checked : Result ApiError Response × Client → Result FetcherError Response × Client
checked (err e, s) = (err (fetch_error e), s)
checked (ok r, s) = if is_ok r then (ok r, s) else (err (chatbot_error (response_error r.json)), s)

-- `catch`: offline, every error is `offline:chat`.
abbrev pub if_online :
    Bool → Result FetcherError Response × Client → Result FetcherError Response × Client
if_online online (ok r, s) = (ok r, s)
if_online true (err e, s) = (err e, s)
if_online false (err e, s) = (err (chatbot_error (raised_error "offline:chat" none none)), s)

unfoldable pub fetch_with_error_handlers :
    Platform → Bool → Input → RequestInit → Io Client FetcherError Response
fetch_with_error_handlers p online input init s =
    if_online online (checked (api_fetch p input init s))
