-- ===== src/Http/Client/Fetch.antt =====
-- frontend/src/lib/backend/directClient.ts: `apiFetch` and `sendWithCsrfRecovery`. The platform is a
-- parameter: what the network answers and what the clock shows depend on the requests sent so far.
use agent_workflow_fast_api.Base.{
  ℕ, String, Bool, true, false, not, ◌&&◌, ◌||◌, List, [], ◌∷◌, Option, none, some, ◌≡◌, ◌==◌,
  string_eq, number_eq, contains, get_or, some_is, if◌then◌else◌, ok, err, Io, resolve, ◌>>=◌, ◌>>◌,
}
use agent_workflow_fast_api.Http.Urls.Mapping.{Mode, Address, map_legacy_api_path}
use agent_workflow_fast_api.Http.Message.{
  Response, Headers, header_has, header_set, RequestInit, Input, url, request, Sent, Reply,
  unreachable, answered, Fields,
}

pub record Platform : Type 0 where
  pub mode : Mode
  pub encode : String → String
  pub to_upper : String → String
  pub to_upper-get : to_upper "GET" ≡ "GET"
  pub to_upper-post : to_upper "POST" ≡ "POST"
  pub network : List Sent → Reply
  pub clock : List Sent → ℕ

-- `csrfToken` and `csrfRefreshAt`, the requests that were sent (newest first) and the number of
-- `asianode-auth-change` events.
pub record Client : Type 0 where
  pub csrf_token : Option String
  pub csrf_refresh_at : ℕ
  pub sent : List Sent
  pub auth_changes : ℕ

-- `TypeError` of a failed `fetch`, and `LocalAuthRequestError`.
pub data ApiError : Type 0 where
  network_failed : ApiError
  auth_failed : ℕ → String → ApiError

abbrev pub Api : Type 0 → Type 0
Api = Io Client ApiError

abbrev pub csrf_header : String
csrf_header = "x-csrf-token"

unfoldable pub is_mutating : String → Bool
is_mutating method = contains ("DELETE" ∷ "PATCH" ∷ "POST" ∷ "PUT" ∷ []) method

abbrev pub address_of : Input → Address
address_of (url a) = a
address_of (request a method headers body) = a

-- The defaults that a `Request` object gives.
abbrev pub input_method : Input → String
input_method (url a) = "GET"
input_method (request a method headers body) = method

abbrev pub input_headers : Input → Headers
input_headers (url a) = []
input_headers (request a method headers body) = headers

abbrev pub input_body : Input → Option Fields
input_body (url a) = none
input_body (request a method headers body) = body

abbrev pub or_else {ℓ} : {A : Type ℓ} → Option A → Option A → Option A
or_else none other = other
or_else (some a) other = some a

-- `payload?.code === "csrf:token_invalid"`
unfoldable pub is_csrf_failure : Response → Bool
is_csrf_failure r =
    r.status == 403 && elim r.json [ none ↦ false | some p ↦ some_is p.code "csrf:token_invalid" ]

unfoldable pub invalidate_local_csrf_token : Api (Unit {0})
invalidate_local_csrf_token s = (ok tt, record s { csrf_token = none; csrf_refresh_at = 0 })

module _ (p : Platform) where
  abbrev pub reply_to : Reply → Api Response
  reply_to unreachable s = (err network_failed, s)
  reply_to (answered r) s = (ok r, s)

  -- The platform's `fetch`.
  unfoldable pub fetch : Sent → Api Response
  fetch r s = reply_to (p.network (r ∷ s.sent)) (record s { sent = r ∷ s.sent })

  abbrev pub is_mapped : Bool
  is_mapped = p.mode.has_window && (p.mode.is_proxy || p.mode.is_direct)

  -- `fetch(target, { ...init, credentials, headers })` with the target's text: of the input only the
  -- address is passed on.
  abbrev pub mapped_request : Input → RequestInit → String → Headers → Sent
  mapped_request input init method headers = record {
    method = get_or init.method "GET";
    address = map_legacy_api_path p.encode p.mode (address_of input) method;
    headers = headers;
    credentials = some (get_or init.credentials "include");
    body = init.body;
  }

  unfoldable pub send_mapped : Input → RequestInit → String → Headers → Api Response
  send_mapped input init method headers = fetch (mapped_request input init method headers)

  -- `fetch(input, init)`
  unfoldable pub send_plain : Input → RequestInit → Api Response
  send_plain input init = fetch (record {
    method = get_or init.method (input_method input);
    address = address_of input;
    headers = get_or init.headers (input_headers input);
    credentials = init.credentials;
    body = or_else init.body (input_body input);
  })

  module _ (get_token : Bool → Api String) where
    -- One retry, with a token that is fetched anew.
    unfoldable pub send_again : Headers → (Headers → Api Response) → Api Response
    send_again headers send = do
      invalidate_local_csrf_token
      token ← get_token true
      send (header_set csrf_header token headers)

    -- Only a refused token on a mutating method is worth the retry.
    unfoldable pub recover : String → Headers → (Headers → Api Response) → Response → Api Response
    recover method headers send response =
        if not (is_mutating method) || not (is_csrf_failure response)
        then resolve response
        else send_again headers send

    unfoldable pub send_with_csrf_recovery :
        String → Headers → (Headers → Api Response) → Api Response
    send_with_csrf_recovery method headers send = do
      response ← send headers
      recover method headers send response

    unfoldable pub add_token : Headers → Api Headers
    add_token headers = do token ← get_token false; resolve (header_set csrf_header token headers)

    unfoldable pub with_token : String → Headers → Api Headers
    with_token method headers =
        if is_mutating method && not (header_has csrf_header headers)
        then add_token headers
        else resolve headers

    unfoldable pub dispatch : Input → RequestInit → String → Headers → Api Response
    dispatch input init method headers =
        if is_mapped
        then send_with_csrf_recovery method headers (send_mapped input init method)
        else send_plain input init

    -- `apiFetch`, over the source of its tokens.
    unfoldable pub api_fetch_with : Input → RequestInit → Api Response
    api_fetch_with input init = do
      headers ← with_token method (get_or init.headers (input_headers input))
      dispatch input init method headers
      where
        method : String
        method = p.to_upper (get_or init.method (input_method input))
