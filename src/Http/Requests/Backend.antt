-- ===== src/Http/Requests/Backend.antt =====
-- frontend/src/lib/backend/request.ts: `requestBackend` and `requestBackendEventStream` over `apiFetch`.
-- The text and the reads of a response's body are parameters, and so is whether the timer of a request
-- fires before `apiFetch` settles. A body of a request is JSON here.
use agent_workflow_fast_api.Base.{
  ℕ, String, Bool, true, false, not, ◌&&◌, ◌||◌, List, [], ◌∷◌, Option, none, some, ◌==◌, string_eq,
  number_eq, get_or, if◌then◌else◌, Result, ok, err, Io, after,
}
use agent_workflow_fast_api.Http.Message.{
  Response, Payload, Detail, absent, plain, items, object, is_ok, includes, header_has, header_set,
  RequestInit, Input, Fields,
}
use agent_workflow_fast_api.Http.Client.Fetch.{Platform, Client, ApiError}
use agent_workflow_fast_api.Http.Client.Token.{join_present, api_fetch}
use agent_workflow_fast_api.Http.Client.Upload.{api_upload}
use agent_workflow_fast_api.Http.Streams.Frames.{Text}
use agent_workflow_fast_api.Http.Streams.Events.{StreamEnd, done, broken, stream_events}

pub record BackendRequestError : Type 0 where
  pub status : ℕ
  pub payload : Option Payload

-- What a call rejects with: an error of `apiFetch`, of the backend, or of reading a body.
pub data RequestError : Type 0 where
  fetch_error : ApiError → RequestError
  backend_error : BackendRequestError → RequestError
  read_error : RequestError

-- The text of an error: one that the payload has, or
-- `Backend request failed with status ${status}.`
pub data ErrorText : Type 0 where
  said : String → ErrorText
  failed_with_status : ℕ → ErrorText

abbrev pub or_said : Option String → ErrorText → ErrorText
or_said none other = other
or_said (some s) other = said s

unfoldable pub detail_text : Detail → Option String
detail_text absent = none
detail_text (plain s) = some s
detail_text (items ms) = some (join_present ms)
detail_text (object m) = m

unfoldable pub request_error_text : BackendRequestError → ErrorText
unfolding detail_text
request_error_text e = elim e.payload [
  | none ↦ failed_with_status e.status
  | some x ↦
      or_said x.cause
        (or_said x.message (or_said (detail_text x.detail) (failed_with_status e.status)))
]

-- The client, and `authorizationFailureHandler` with the errors that it was called with, newest first.
pub record Requests : Type 0 where
  pub client : Client
  pub has_handler : Bool
  pub failures : List BackendRequestError

abbrev pub Request : Type 0 → Type 0
Request = Io Requests RequestError

unfoldable pub set_backend_authorization_failure_handler : Bool → Requests → Requests
set_backend_authorization_failure_handler given s = record s { has_handler = given }

unfoldable pub has_body : RequestInit → Bool
has_body init = elim init.body [ none ↦ false | some b ↦ true ]

unfoldable pub normalize_init : RequestInit → RequestInit
unfolding has_body
normalize_init init =
    let headers = get_or init.headers [] in
    record init {
      headers = some (
          if has_body init && not (header_has "content-type" headers)
          then header_set "content-type" "application/json" headers
          else headers);
    }

-- The body of a good response: its JSON, if it says that it is JSON and it parses, or its text.
pub data Body : Type 0 where
  json_body : Option Payload → Body
  text_body : String → Body

-- `payload && typeof payload === "object" ? payload : null`
abbrev pub error_payload : Body → Option Payload
error_payload (json_body o) = o
error_payload (text_body s) = none

abbrev pub is_refusal : ℕ → Bool
is_refusal status = status == 401 || status == 403

-- `authorizationFailureHandler?.(error)` for the statuses 401 and 403.
unfoldable pub report : BackendRequestError → Requests → Requests
report e s =
    if is_refusal e.status && s.has_handler then record s { failures = e ∷ s.failures } else s

abbrev pub timeout_payload : Payload
timeout_payload = record {
  authenticated = none;
  cause = none;
  code = some "backend:timeout";
  csrf_token = none;
  detail = absent;
  message = some "The backend request timed out.";
  request_id = none;
  user = none;
}

abbrev pub timeout_error : BackendRequestError
timeout_error = record { status = 504; payload = some timeout_payload }

abbrev pub invalid_stream_error : BackendRequestError
invalid_stream_error = record {
  status = 502;
  payload = some (record timeout_payload {
    code = some "backend:invalid_stream";
    message = some "The backend did not return a readable event stream.";
  });
}

abbrev pub end_result : StreamEnd → Result RequestError (Unit {0})
end_result done = ok tt
end_result broken = err read_error

module _ (p : Platform) (text_of : Response → String) where
  unfoldable pub body_of : Response → Body
  body_of r =
      if includes (get_or r.content_type "") "application/json"
      then json_body r.json
      else text_body (text_of r)

  abbrev pub response_error : Response → BackendRequestError
  response_error r = record { status = r.status; payload = error_payload (body_of r) }

  unfoldable pub parse_backend_response : Response → Request Body
  unfolding body_of
  parse_backend_response r s =
      if is_ok r
      then (ok (body_of r), s)
      else (err (backend_error (response_error r)), report (response_error r) s)

  -- `apiFetch` on the client, with its errors as they are.
  abbrev pub fetched :
      {A : Type 0} → Result ApiError A × Client → Requests → Result RequestError A × Requests
  fetched (ok a, c) s = (ok a, record s { client = c })
  fetched (err e, c) s = (err (fetch_error e), record s { client = c })

  unfoldable pub fetch_normalized : Input → RequestInit → Request Response
  fetch_normalized input init s = fetched (api_fetch p input (normalize_init init) s.client) s

  -- `catch`: an error after the timer fired is the timeout.
  abbrev pub timed_out :
      {A : Type 0} → Bool → Result RequestError A × Requests → Result RequestError A × Requests
  timed_out true (err e, s) = (err (backend_error timeout_error), s)
  timed_out false (err e, s) = (err e, s)
  timed_out b (ok a, s) = (ok a, s)

  -- The response is parsed outside of the `try`: its promise is returned, not awaited.
  unfoldable pub request_backend : Bool → Input → RequestInit → Request Body
  request_backend timeout_triggered input init s =
      after (timed_out timeout_triggered (fetch_normalized input init s)) parse_backend_response

  -- The response of `apiUpload`, parsed.
  unfoldable pub request_backend_upload : Input → Fields → Request Body
  request_backend_upload input form s =
      after (fetched (api_upload p input form s.client) s) parse_backend_response

  module _ {Event : Type 0} (parse : Text → Option Event)
      (reads_of : Response → Option (List Text × StreamEnd)) where
    abbrev pub read_events :
        Option (List Text × StreamEnd)
        → Requests
        → List Event × Result RequestError (Unit {0}) × Requests
    read_events none s = ([], err (backend_error invalid_stream_error), s)
    read_events (some (reads, end)) s = (stream_events parse [] reads, end_result end, s)

    abbrev pub without_value :
        {A : Type 0}
        → Result RequestError A × Requests
        → List Event × Result RequestError (Unit {0}) × Requests
    without_value (ok a, s) = ([], ok tt, s)
    without_value (err e, s) = ([], err e, s)

    abbrev pub stream_of :
        Result RequestError Response × Requests
        → List Event × Result RequestError (Unit {0}) × Requests
    stream_of (err e, s) = ([], err e, s)
    stream_of (ok r, s) =
        if is_ok r then read_events (reads_of r) s else without_value (parse_backend_response r s)

    -- The events that are handed to `onEvent`, and how the call ends.
    unfoldable pub request_backend_event_stream :
        Input → RequestInit → Requests → List Event × Result RequestError (Unit {0}) × Requests
    request_backend_event_stream input init s = stream_of (fetch_normalized input init s)
