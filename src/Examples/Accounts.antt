-- ===== src/Examples/Accounts.antt =====
-- A signed-in user, and a backend that says that the user is suspended.
use agent_workflow_fast_api.Base.{
  String, true, false, [], ◌∷◌, none, some, ◌≡◌, ◌↔◌, refl, string_eq, number_eq,
}
use agent_workflow_fast_api.Http.Message.{Response, Input, url, answered, RequestInit}
use agent_workflow_fast_api.Http.Client.Fetch.{Platform}
use agent_workflow_fast_api.Http.Requests.Backend.{
  BackendRequestError, Requests, request_backend, fetch_normalized, normalize_init, has_body,
  parse_backend_response, body_of, report,
}
use agent_workflow_fast_api.Accounts.Session.{User, AuthSession, sign_out}
use agent_workflow_fast_api.Accounts.Application.{
  Application, active, ready, is_authenticated, application_status, on_authorization_failure,
}
use agent_workflow_fast_api.Accounts.Laws.{
  IsSignedIn, application_status-authenticated_iff, verdict, request_backend-verdict, SignedOut,
  sign_out-SignedOut,
}
use agent_workflow_fast_api.Examples.Browser.{browser, fresh, json, payload, calls}

abbrev ann : User
ann = record { email = some "a@x"; id = "ann"; image = none; name = none }

abbrev session : AuthSession
session = record { user = some ann; is_ready = true; locations = []; client = fresh }

abbrev application : Application
application = record {
  session = session;
  blocked_status = none;
  previous_identity = some "ann";
  query_data =
      some (record { access_state = ready; memberships = []; status = active; user_id = "ann" });
  query_error = none;
  query_is_loading = false;
  removed = [];
}

application_status-authenticated_iff_example :
    (application_status application ≡ is_authenticated) ↔ IsSignedIn application
application_status-authenticated_iff_example = application_status-authenticated_iff application

abbrev suspending : Platform
suspending = record browser {
  network = λ sent. answered (json 403 (payload none none (some "user:suspended")));
}

abbrev requests : Requests
requests = record { client = fresh; has_handler = true; failures = [] }

abbrev me : Input
me = url (record { pathname = "/api/v1/me"; query = [] })

abbrev get : RequestInit
get = record { method = none; headers = none; credentials = none; body = none }

abbrev no_text : Response → String
no_text r = ""

abbrev suspension : BackendRequestError
suspension = record { status = 403; payload = some (payload none none (some "user:suspended")) }

request_backend-verdict_example :
    ((request_backend suspending no_text false me get requests).1.failures ≡ suspension ∷ [])
    × (application_status (on_authorization_failure (λ s. s) suspension application)
        ≡ verdict suspension (application_status application))
unfolding calls request_backend fetch_normalized normalize_init has_body parse_backend_response
    body_of report
request_backend-verdict_example =
    request_backend-verdict suspending no_text false me get (λ s. s) requests _ suspension
      application ann refl refl refl refl

sign_out-SignedOut_example : SignedOut session (sign_out browser session)
sign_out-SignedOut_example = sign_out-SignedOut browser session
