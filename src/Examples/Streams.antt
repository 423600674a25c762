-- ===== src/Examples/Streams.antt =====
-- Streams, requests and errors of a browser.
use agent_workflow_fast_api.Base.{
  String, true, false, List, [], ◌∷◌, ◌++◌, Option, none, some, ◌≡◌, refl, arith, string_eq,
  number_eq, ok, err,
}
use agent_workflow_fast_api.Http.Message.{answered, Response}
use agent_workflow_fast_api.Http.Client.Fetch.{Platform}
use agent_workflow_fast_api.Http.Client.Token.{api_fetch, csrf_url}
use agent_workflow_fast_api.Http.Client.Upload.{
  upload_target, send_upload_request, upload_headers, api_upload,
}
use agent_workflow_fast_api.Http.Client.Laws.Uploads.{IsUploaded, api_upload-IsUploaded}
use agent_workflow_fast_api.Http.Streams.Frames.{
  Text, codes, newline, split_frames, pop, split_lines, trim, trim_start, trim_end, is_space,
  join_lines, frame_payload,
}
use agent_workflow_fast_api.Http.Streams.Events.{StreamEnd, done, frame_events, stream_events}
use agent_workflow_fast_api.Http.Streams.Chunks.{stream_events-concat}
use agent_workflow_fast_api.Http.Requests.Backend.{
  Requests, has_body, normalize_init, request_backend_event_stream, request_backend,
  request_backend_upload,
}
use agent_workflow_fast_api.Http.Requests.Laws.{
  IsReported, request_backend-IsReported, request_backend_event_stream-written,
}
use agent_workflow_fast_api.Http.Fetchers.{fetcher, bare_init, chatbot_error}
use agent_workflow_fast_api.Http.Fetchers.RoundTrip.{sent_response, fetcher-to_response}
use agent_workflow_fast_api.Conversations.Errors.{
  ChatbotError, forbidden, chat, to_response, visibility_by_surface,
}
use agent_workflow_fast_api.Conversations.Errors.Codes.{
  raised_error, raised_error-code_text, error_of,
}
use agent_workflow_fast_api.Http.Session.Calls.{post_init}
use agent_workflow_fast_api.Examples.Browser.{browser, fresh, welcome, logout, calls}

abbrev echo : Text → Option Text
echo s = some s

-- Two events and the beginning of a third, cut in the middle of a line and of an empty line.
abbrev reads : List Text
reads =
    codes "data: o"
    ∷ (codes "ne" ++ (newline ∷ []))
    ∷ (newline ∷ codes "data:two" ++ (newline ∷ newline ∷ codes "data: th"))
    ∷ []

stream_events-concat_example : stream_events echo [] reads ≡ codes "one" ∷ codes "two" ∷ []
unfolding frame_events frame_payload split_frames pop split_lines trim trim_start trim_end is_space
    join_lines
stream_events-concat_example = stream_events-concat echo reads

abbrev told : Requests
told = record { client = fresh; has_handler = true; failures = [] }

abbrev no_text : Response → String
no_text r = ""

request_backend-IsReported_example :
    IsReported true told (request_backend browser no_text true logout bare_init told)
    × IsReported false told
        (request_backend_upload browser no_text logout (("file", "report.pdf") ∷ []) told)
request_backend-IsReported_example =
    request_backend-IsReported browser no_text true logout bare_init (("file", "report.pdf") ∷ [])
      told

abbrev body : Response → Option (List Text × StreamEnd)
body r = some ((codes "data: on" ∷ (codes "e" ++ (newline ∷ newline ∷ [])) ∷ []), done)

request_backend_event_stream-written_example :
    request_backend_event_stream browser no_text echo body logout (post_init [] none) told ≡ (
      codes "one" ∷ [],
      ok tt,
      record told {
        client = (api_fetch browser logout (normalize_init (post_init [] none)) fresh).1;
      },
    )
unfolding calls normalize_init has_body trim trim_start trim_end is_space
request_backend_event_stream-written_example =
    request_backend_event_stream-written browser no_text echo body logout (post_init [] none) told
      welcome _ ((codes "one", codes "one") ∷ [])
      (codes "data: on" ∷ (codes "e" ++ (newline ∷ newline ∷ [])) ∷ []) done refl refl refl
      (
        record {
          line = record { one_line = omega arith; present = cc; bare = refl };
          event = refl;
        },
        tt,
      )
      refl

abbrev forbidden_chat : ChatbotError
forbidden_chat = record { type = forbidden; surface = chat; cause = some "Not yours." }

raised_error-code_text_example :
    raised_error "forbidden:chat" (some "Not yours.") none
    ≡ error_of forbidden chat (some "Not yours.") none
raised_error-code_text_example = raised_error-code_text forbidden chat (some "Not yours.") none

-- A server that answers all with this error.
abbrev refuser : Platform
refuser = record browser {
  network = λ sent. answered (sent_response (to_response forbidden_chat (some "r1")));
}

fetcher-to_response_example : fetcher refuser csrf_url fresh ≡ (
  err (chatbot_error (error_of forbidden chat (some "Not yours.") (some "r1"))),
  (api_fetch refuser csrf_url bare_init fresh).1,
)
unfolding calls to_response visibility_by_surface
fetcher-to_response_example =
    fetcher-to_response refuser csrf_url fresh _ forbidden_chat (some "r1") refl

api_upload-IsUploaded_example :
    IsUploaded browser logout
      (("file", "report.pdf") ∷ [])
      welcome
      (api_upload browser logout (("file", "report.pdf") ∷ []) fresh).1
unfolding calls api_upload upload_headers send_upload_request upload_target
api_upload-IsUploaded_example =
    api_upload-IsUploaded browser logout (("file", "report.pdf") ∷ []) fresh welcome _ refl
