-- ===== src/Http/Client/Upload.antt =====
-- frontend/src/lib/backend/directClient.ts: `apiUpload`. A form is the list of its fields; the progress
-- that the request reports is left out, and an `XMLHttpRequest` is answered like a `fetch`.
use agent_workflow_fast_api.Base.{none, some, not, if◌then◌else◌, resolve, ◌>>=◌}
use agent_workflow_fast_api.Http.Urls.Mapping.{Address, map_legacy_api_path}
use agent_workflow_fast_api.Http.Message.{Response, Headers, header_has, Input, Fields}
use agent_workflow_fast_api.Http.Client.Fetch.{
  Platform, Api, is_mapped, address_of, input_headers, fetch, add_token, csrf_header,
  send_with_csrf_recovery,
}
use agent_workflow_fast_api.Http.Client.Token.{get_csrf_token}

module _ (p : Platform) where
  unfoldable pub upload_target : Input → Address
  upload_target input =
      if is_mapped p
      then map_legacy_api_path p.encode p.mode (address_of input) "POST"
      else address_of input

  unfoldable pub send_upload_request : Input → Fields → Headers → Api Response
  unfolding upload_target
  send_upload_request input form headers = fetch p (record {
    method = "POST";
    address = upload_target input;
    headers = headers;
    credentials = if is_mapped p then some "include" else none;
    body = some form;
  })

  unfoldable pub upload_headers : Headers → Api Headers
  upload_headers headers =
      if not (header_has csrf_header headers)
      then add_token p (get_csrf_token p) headers
      else resolve headers

  unfoldable pub api_upload : Input → Fields → Api Response
  api_upload input form = do
    headers ← upload_headers (input_headers input)
    send_with_csrf_recovery p (get_csrf_token p) "POST" headers (send_upload_request input form)
