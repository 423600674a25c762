-- ===== src/Http/Fetchers/RoundTrip.antt =====
-- frontend/src/lib/utils.ts and frontend/src/lib/errors.ts: an error that a route answers with, as the
-- browser reads it.
use agent_workflow_fast_api.Base.{
  String, false, ◌&&◌, Option, none, some, ◌≡◌, refl, ap, leb, get_or, ok, err,
}
use agent_workflow_fast_api.Http.Message.{Response, absent, Input}
use agent_workflow_fast_api.Http.Urls.Params.{truthy}
use agent_workflow_fast_api.Http.Client.Fetch.{Platform, Client, or_else}
use agent_workflow_fast_api.Http.Client.Token.{api_fetch}
use agent_workflow_fast_api.Http.Fetchers.{chatbot_error, response_error, bare_init, fetcher}
use agent_workflow_fast_api.Conversations.Errors.{
  ErrorType, bad_request, unauthorized, forbidden, not_found, rate_limit, offline, Surface,
  ErrorVisibility, response, log, none_shown, ChatbotError, ErrorResponse, shown, to_response,
  visibility_by_surface, default_error_message, get_message_by_error_code, get_status_code_by_type,
}
use agent_workflow_fast_api.Conversations.Errors.Codes.{
  RaisedError, raised_error, error_of, code_text, raised_error-code_text,
}

-- The text of a code, which is empty where the response hides it.
abbrev pub sent_code : Option (ErrorType × Surface) → String
sent_code none = ""
sent_code (some (type, surface)) = code_text type surface

-- `Response.json(…)`
abbrev pub sent_response : ErrorResponse → Response
sent_response r = record {
  status = r.status;
  content_type = some "application/json";
  json = some (record {
    authenticated = none;
    cause = r.cause;
    code = some (sent_code r.code);
    csrf_token = none;
    detail = absent;
    message = some r.message;
    request_id = r.request_id;
    user = none;
  });
}

-- What the browser makes of an error: the same error, whose cause is its message if it had none; and
-- of an error of the database an error with no code.
abbrev pub rebuilt : ErrorVisibility → ChatbotError → Option String → RaisedError
rebuilt log e request_id = raised_error "" (some default_error_message) request_id
rebuilt _ e request_id =
    error_of e.type e.surface (some (get_or e.cause (get_message_by_error_code e.type e.surface)))
      request_id

or_else-some :
    (o : Option String) (s : String) (d : Option String)
    → or_else o (or_else (some s) d) ≡ some (get_or o s)
or_else-some none s d = refl
or_else-some (some t) s d = refl

bad_status :
    (t : ErrorType)
    → (leb 200 (get_status_code_by_type t) && leb (get_status_code_by_type t) 299) ≡ false
unfolding get_status_code_by_type
bad_status bad_request = refl
bad_status unauthorized = refl
bad_status forbidden = refl
bad_status not_found = refl
bad_status rate_limit = refl
bad_status offline = refl

status-shown :
    (v : ErrorVisibility) (e : ChatbotError) (r : Option String)
    → (shown v e r).status ≡ get_status_code_by_type e.type
status-shown log e r = refl
status-shown response e r = refl
status-shown none_shown e r = refl

response_error-shown :
    (v : ErrorVisibility) (e : ChatbotError) (request_id : Option String)
    → response_error (sent_response (shown v e request_id)).json ≡ rebuilt v e (truthy request_id)
unfolding response_error
response_error-shown log e request_id = refl
response_error-shown response e request_id =
    rw (or_else-some e.cause (get_message_by_error_code e.type e.surface) none)
      (raised_error-code_text e.type e.surface _ (truthy request_id))
response_error-shown none_shown e request_id =
    rw (or_else-some e.cause (get_message_by_error_code e.type e.surface) none)
      (raised_error-code_text e.type e.surface _ (truthy request_id))

-- If a request of `fetcher` is answered with the response of a `ChatbotError`, then `fetcher` rejects
-- with an error of the same type, surface, status and message, with the request id if it was not
-- empty, whose cause is that of the first, or its message if it had none; an error of the database
-- comes back with no type or surface and the general message.
pub fetcher-to_response :
    (p : Platform) (input : Input) (s s' : Client) (e : ChatbotError) (request_id : Option String)
    → api_fetch p input bare_init s ≡ (ok (sent_response (to_response e request_id)), s')
    → fetcher p input s
      ≡ (err (chatbot_error (rebuilt (visibility_by_surface e.surface) e (truthy request_id))), s')
unfolding fetcher to_response
fetcher-to_response p input s s' e request_id h =
    let v = visibility_by_surface e.surface in
    rw (h, status-shown v e request_id, bad_status e.type)
      (ap (λ x. (err (chatbot_error x), s')) (response_error-shown v e request_id))
