-- ===== src/Examples/Browser.antt =====
-- A server that hands out an old token first and accepts only the new one, and calls of it.
use agent_workflow_fast_api.Base.{
  ℕ, ◌≤◌, ◌+◌, String, Bool, true, false, List, [], ◌∷◌, Option, none, some, ◌≡◌, refl, ◌==◌,
  string_eq, number_eq, some_is, ne_of_==, if◌then◌else◌, length,
}
use agent_workflow_fast_api.Http.Urls.Params.{params_get, params_get_all, params_set, params_delete}
use agent_workflow_fast_api.Http.Urls.Mapping.{
  Mode, Address, map_legacy_api_path, legacy_target, append_workspace_id, chosen_workspace,
  is_workspace_scoped, path_without_base_path, other_target, chat_target, is_v1_alias, to_v1,
  stream_match, split_path,
}
use agent_workflow_fast_api.Http.Urls.Scope.{map_legacy_api_path_pinned}
use agent_workflow_fast_api.Http.Urls.Routes.{lists_chats}
use agent_workflow_fast_api.Http.Urls.Versions.{Leads, map_legacy_api_path_lem}
use agent_workflow_fast_api.Http.Message.{
  Response, Payload, absent, header_get, header_has, header_set, Input, url, Sent, Reply,
  unreachable, answered,
}
use agent_workflow_fast_api.Http.Client.Fetch.{
  Platform, Client, is_mutating, is_csrf_failure, fetch, mapped_request, send_mapped, send_plain,
  send_again, recover, send_with_csrf_recovery, add_token, with_token, dispatch, api_fetch_with,
  invalidate_local_csrf_token, csrf_header,
}
use agent_workflow_fast_api.Http.Client.Token.{
  response_payload, store_token, accept_token, fetch_csrf, refresh_token, cached_token,
  get_csrf_token, api_fetch,
}
use agent_workflow_fast_api.Http.Client.Laws.Growth.{length-sent-api_fetch}
use agent_workflow_fast_api.Http.Client.Laws.Carried.{IsAnswer, api_fetch-IsAnswer}
use agent_workflow_fast_api.Http.Client.Laws.Recovery.{api_fetch_retry, refreshed, csrf_request}
use agent_workflow_fast_api.Http.Client.Refresh.{
  loaded, call, accept_promise, IsSingle, begin, step, called, accepted, Reachable-IsSingle,
}
use agent_workflow_fast_api.Http.Session.Calls.{
  post_init, session_of, read_session, announce, require_ok, sign_in_with_local_session,
  sign_out_local_session, activate_local_invitation, change_local_password, post_for_session,
}
use agent_workflow_fast_api.Http.Session.Laws.{IsBacked, sign_in-IsBacked}

abbrev proxy : Mode
proxy = record {
  is_direct = false;
  is_proxy = true;
  has_window = true;
  is_single_workspace = true;
  workspace_id = "w1";
  base_path = "";
  url_pathname = λ path. path;
}

abbrev pub payload : Option Bool → Option String → Option String → Payload
payload authenticated token code = record {
  authenticated = authenticated;
  cause = none;
  code = code;
  csrf_token = token;
  detail = absent;
  message = none;
  request_id = none;
  user = none;
}

abbrev pub json : ℕ → Payload → Response
json status p = record { status = status; content_type = some "application/json"; json = some p }

abbrev refusal : Response
refusal = json 403 (payload none none (some "csrf:token_invalid"))

abbrev pub welcome : Response
welcome = json 200 (payload (some true) none none)

abbrev grants : String → Response
grants token = json 200 (payload none (some token) none)

abbrev serve : List Sent → Reply
serve [] = unreachable
serve (r ∷ earlier) =
    if r.address.pathname == "/api/v1/auth/csrf"
    then answered (grants (if length earlier == 0 then "old" else "new"))
    else if some_is (header_get csrf_header r.headers) "new"
    then answered welcome
    else answered refusal

abbrev pub browser : Platform
browser = record {
  mode = proxy;
  encode = λ s. s;
  to_upper = λ s. s;
  to_upper-get = refl;
  to_upper-post = refl;
  network = serve;
  clock = λ sent. length sent;
}

abbrev pub fresh : Client
fresh = record { csrf_token = none; csrf_refresh_at = 0; sent = []; auth_changes = 0 }

-- Opens what a call computes with.
unfoldable pub calls : Unit {0}
unfolding some_is params_get params_set params_delete map_legacy_api_path legacy_target
    append_workspace_id chosen_workspace is_workspace_scoped path_without_base_path other_target
    chat_target is_v1_alias to_v1 stream_match split_path header_get header_has header_set
    is_mutating is_csrf_failure fetch send_mapped send_plain send_again recover
    send_with_csrf_recovery add_token with_token dispatch api_fetch_with invalidate_local_csrf_token
    response_payload store_token accept_token fetch_csrf refresh_token cached_token get_csrf_token
    api_fetch session_of read_session announce require_ok sign_in_with_local_session
    sign_out_local_session activate_local_invitation change_local_password post_for_session
calls = tt

-- A first sign-in fetches a token, is refused, fetches another and succeeds.
sign_in_run :
    ◌≡◌ {A = ℕ} (length (sign_in_with_local_session browser "a@x" "secret" fresh).1.sent) 4
unfolding calls
sign_in_run = refl

abbrev history_page : Address
history_page = record {
  pathname = "/api/history";
  query = ("limit", "5") ∷ ("workspace_id", "other") ∷ [];
}

map_legacy_api_path_pinned_example :
    params_get_all "workspace_id" (map_legacy_api_path (λ s. s) proxy history_page "GET").query
    ≡ "w1" ∷ []
unfolding calls
map_legacy_api_path_pinned_example =
    map_legacy_api_path_pinned (λ s. s) proxy history_page "GET" refl (ne_of_== "w1" "" refl) refl

map_legacy_api_path_lem_example :
    Leads proxy "/api/v1/chats" history_page.query
      (map_legacy_api_path (λ s. s) proxy history_page "GET")
unfolding path_without_base_path
map_legacy_api_path_lem_example =
    (map_legacy_api_path_lem (λ s. s) proxy history_page "GET").0 "/api/v1/chats" history_page.query
      (lists_chats refl)

abbrev pub logout : Input
logout = url (record { pathname = "/api/v1/auth/logout"; query = [] })

length-sent-api_fetch_example :
    length (api_fetch browser logout (post_init [] none) fresh).1.sent ≤ 0 + 4
length-sent-api_fetch_example = length-sent-api_fetch browser logout (post_init [] none) fresh

api_fetch-IsAnswer_example :
    IsAnswer browser logout "POST" welcome (api_fetch browser logout (post_init [] none) fresh).1
unfolding calls
api_fetch-IsAnswer_example =
    api_fetch-IsAnswer browser logout (post_init [] none) fresh welcome _ refl refl refl

abbrev first_try : Sent
first_try = mapped_request browser logout (post_init [] none) "POST" ((csrf_header, "old") ∷ [])

-- The client with the token that the server refuses.
abbrev with_old : Client
with_old = refreshed browser fresh (csrf_request browser ∷ []) "old"

api_fetch_retry_example :
    api_fetch browser logout (post_init [] none) fresh
    ≡ fetch browser
        (mapped_request browser logout (post_init [] none) "POST" ((csrf_header, "new") ∷ []))
        (refreshed browser with_old
          (csrf_request browser ∷ first_try ∷ csrf_request browser ∷ [])
          "new")
unfolding calls
api_fetch_retry_example =
    api_fetch_retry browser logout (post_init [] none) fresh with_old ((csrf_header, "old") ∷ [])
      refusal (grants "new") "new" refl refl refl refl refl refl refl refl

sign_in-IsBacked_example :
    IsBacked browser
      (record { authenticated = true; user = none })
      (sign_in_with_local_session browser "a@x" "secret" fresh).1
unfolding calls
sign_in-IsBacked_example = sign_in-IsBacked browser "a@x" "secret" fresh _ _ refl refl

-- Two calls that overlap, and the answer to the request of the first.
Reachable-IsSingle_example : IsSingle (accept_promise 0 "new" 9 (call true 5 (call false 0 loaded)))
unfolding call
Reachable-IsSingle_example = Reachable-IsSingle (
    step (step (step begin (called false 0 loaded)) (called true 5 (call false 0 loaded)))
      (accepted 0 "new" 9 (call true 5 (call false 0 loaded)) refl))
