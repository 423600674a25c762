-- ===== src/Http/Requests/Laws.antt =====
-- frontend/src/lib/backend/request.ts: what `requestBackend` reports, and the events of a stream.
use agent_workflow_fast_api.Base.{
  ◌&&◌, String, Bool, true, false, List, [], ◌∷◌, ◌++◌, map, Option, some, ◌≡◌, refl, arith,
  string_eq, number_eq, if◌then◌else◌, All, Result, ok, err, after, Bool-cases, inl, inr,
}
use agent_workflow_fast_api.Http.Message.{Response, is_ok, RequestInit, Input, Fields}
use agent_workflow_fast_api.Http.Client.Fetch.{Platform, Client, ApiError}
use agent_workflow_fast_api.Http.Client.Token.{api_fetch}
use agent_workflow_fast_api.Http.Client.Upload.{api_upload}
use agent_workflow_fast_api.Http.Streams.Frames.{Text}
use agent_workflow_fast_api.Http.Streams.Events.{StreamEnd}
use agent_workflow_fast_api.Http.Streams.Chunks.{concat}
use agent_workflow_fast_api.Http.Streams.RoundTrip.{written, IsSent, stream_events-written}
use agent_workflow_fast_api.Http.Requests.Backend.{
  BackendRequestError, RequestError, fetch_error, backend_error, Requests, Body, normalize_init,
  is_refusal, report, timeout_error, response_error, parse_backend_response, fetched,
  fetch_normalized, timed_out, request_backend, request_backend_upload, end_result,
  request_backend_event_stream,
}

-- The calls of the handler that a result stands for.
abbrev pub reported : Result RequestError Body → Bool → List BackendRequestError
reported (err (backend_error e)) true = if is_refusal e.status then e ∷ [] else []
reported _ _ = []

-- Whether a result is an error of `apiFetch`.
abbrev pub is_fetch_error : Result RequestError Body → Bool
is_fetch_error (err (fetch_error e)) = true
is_fetch_error _ = false

-- What a call may not do: call the handler for anything but the refusal that it rejects with, or
-- reject with an error of `apiFetch` after its timer fired.
pub record IsReported (triggered : Bool) (s : Requests) (r : Result RequestError Body × Requests)
    : Type 0 where
  pub handler : r.1.has_handler ≡ s.has_handler
  pub failures : r.1.failures ≡ reported r.0 s.has_handler ++ s.failures
  pub timeout : (triggered && is_fetch_error r.0) ≡ false

has_handler-report :
    (e : BackendRequestError) (s : Requests) → (report e s).has_handler ≡ s.has_handler
unfolding report
has_handler-report e s = ground arith

failures-report :
    (e : BackendRequestError) (s : Requests)
    → (report e s).failures ≡ reported (err (backend_error e)) s.has_handler ++ s.failures
unfolding report
failures-report e s = elim (Bool-cases s.has_handler) [
  | inl g ↦ rw g (ground arith)
  | inr g ↦ rw g (ground arith)
]

module _ (p : Platform) (text_of : Response → String) (triggered : Bool) (s : Requests) where
  parse-IsReported :
      (r : Response) (c : Client)
      → IsReported triggered s (parse_backend_response p text_of r (record s { client = c }))
  unfolding parse_backend_response
  parse-IsReported r c = elim (Bool-cases (is_ok r)) [
    | inl e ↦ rw e (record { handler = refl; failures = refl; timeout = ground arith })
    | inr e ↦ rw e (record {
      handler = has_handler-report (response_error p text_of r) (record s { client = c });
      failures = failures-report (response_error p text_of r) (record s { client = c });
      timeout = ground arith;
    })
  ]

timeout_unreported : (b : Bool) → reported (err (backend_error timeout_error)) b ≡ []
timeout_unreported true = refl
timeout_unreported false = refl

answer-IsReported :
    (p : Platform) (text_of : Response → String) (triggered : Bool) (s : Requests)
    (a : Result ApiError Response × Client)
    → IsReported triggered s (
        after
          (timed_out p text_of triggered (fetched p text_of a s))
          (parse_backend_response p text_of))
answer-IsReported p text_of true s (ok r, c) = parse-IsReported p text_of true s r c
answer-IsReported p text_of false s (ok r, c) = parse-IsReported p text_of false s r c
answer-IsReported p text_of true s (err x, c) = record {
  handler = refl;
  failures = rw (timeout_unreported s.has_handler) refl;
  timeout = ground arith;
}
answer-IsReported p text_of false s (err x, c) = record {
  handler = refl;
  failures = refl;
  timeout = ground arith;
}

upload-IsReported :
    (p : Platform) (text_of : Response → String) (s : Requests)
    (a : Result ApiError Response × Client)
    → IsReported false s (after (fetched p text_of a s) (parse_backend_response p text_of))
upload-IsReported p text_of s (ok r, c) = parse-IsReported p text_of false s r c
upload-IsReported p text_of s (err x, c) = record {
  handler = refl;
  failures = refl;
  timeout = refl;
}

-- `requestBackend` and `requestBackendUpload` call the handler for authorization failures, if there is
-- one, exactly when they reject with a `BackendRequestError` of status 401 or 403, and then once and
-- with that error; they keep the handler; and after its timer fired `requestBackend` never rejects
-- with an error of `apiFetch`.
pub request_backend-IsReported :
    (p : Platform) (text_of : Response → String) (triggered : Bool) (input : Input)
    (init : RequestInit) (form : Fields) (s : Requests)
    → IsReported triggered s (request_backend p text_of triggered input init s)
      × IsReported false s (request_backend_upload p text_of input form s)
unfolding request_backend fetch_normalized request_backend_upload
request_backend-IsReported p text_of triggered input init form s = (
  answer-IsReported p text_of triggered s (api_fetch p input (normalize_init init) s.client),
  upload-IsReported p text_of s (api_upload p input form s.client),
)

-- If `apiFetch` gives a good response whose reads, cut in any way, make up the lines `data: …` of some
-- payloads, each with an empty line behind it, and the payloads are texts of one line, not empty and
-- with no space at their ends, that parse to their events, then `requestBackendEventStream` hands on
-- exactly these events in their order, and resolves if the stream ends and rejects if it breaks.
pub request_backend_event_stream-written :
    (p : Platform) (text_of : Response → String) {Event : Type 0} (parse : Text → Option Event)
    (reads_of : Response → Option (List Text × StreamEnd)) (input : Input) (init : RequestInit)
    (s : Requests) (r : Response) (c : Client) (items : List (Text × Event)) (reads : List Text)
    (end : StreamEnd)
    → api_fetch p input (normalize_init init) s.client ≡ (ok r, c)
    → is_ok r ≡ true
    → reads_of r ≡ some (reads, end)
    → All (IsSent parse) items
    → concat reads ≡ written (map (λ i. i.0) items)
    → request_backend_event_stream p text_of parse reads_of input init s
      ≡ (map (λ i. i.1) items, end_result end, record s { client = c })
unfolding request_backend_event_stream fetch_normalized
request_backend_event_stream-written p text_of parse reads_of input init s r c items reads end
      answer good body sent text =
    rw (answer, good, body, stream_events-written parse items reads sent text) refl
