-- ===== src/Http/Client/Laws/Recovery.antt =====
-- frontend/src/lib/backend/directClient.ts: the retry after a refused CSRF token.
use agent_workflow_fast_api.Base.{
  ◌+◌, ◌-◌, String, true, false, List, [], ◌∷◌, none, some, ◌≡◌, refl, ap, ◌∙◌, get_or, Result, ok,
  err, after, resolve,
}
use agent_workflow_fast_api.Http.Message.{
  Response, Headers, header_set, RequestInit, Input, Sent, answered, is_ok,
}
use agent_workflow_fast_api.Http.Client.Fetch.{
  Platform, Client, ApiError, Api, is_mapped, is_mutating, is_csrf_failure, input_headers,
  input_method, invalidate_local_csrf_token, fetch, mapped_request, send_mapped, send_again,
  recover, dispatch, csrf_header, send_with_csrf_recovery, with_token, api_fetch_with,
}
use agent_workflow_fast_api.Http.Client.Token.{
  offered_token, store_token, accept_token, fetch_csrf, refresh_token, cached_token, get_csrf_token,
  api_fetch, csrf_url, csrf_init, csrf_token_max_age_ms, csrf_refresh_margin_ms,
}

after-resolve : {A : Type 0} (r : Result ApiError A × Client) → after r (λ a. resolve a) ≡ r
after-resolve (ok a, s) = refl
after-resolve (err e, s) = refl

abbrev pub csrf_request : Platform → Sent
csrf_request p = mapped_request p csrf_url csrf_init "GET" []

csrf_method_safe : is_mutating "GET" ≡ false
unfolding is_mutating
csrf_method_safe = refl

-- The state after a token was fetched following the requests `sent`.
abbrev pub refreshed : Platform → Client → List Sent → String → Client
refreshed p s sent t = record s {
  csrf_token = some t;
  csrf_refresh_at = (p.clock sent + csrf_token_max_age_ms) - csrf_refresh_margin_ms;
  sent = sent;
}

module _ (p : Platform) (mapped : is_mapped p ≡ true) where
  fetch_csrf_lem : (s : Client) → fetch_csrf p s ≡ fetch p (csrf_request p) s
  unfolding fetch_csrf api_fetch_with with_token dispatch send_with_csrf_recovery recover
      send_mapped
  fetch_csrf_lem s =
      rw (p.to_upper-get, csrf_method_safe, mapped) (after-resolve (fetch p (csrf_request p) s))

  accept_token_lem :
      (s : Client) (r : Response) (t : String)
      → is_ok r ≡ true
      → offered_token r ≡ some t
      → accept_token p r s ≡ (ok t, refreshed p s s.sent t)
  unfolding accept_token store_token
  accept_token_lem s r t good offered = rw (offered, accept_token) (rw good refl)

  refresh_token_lem :
      (s : Client) (r : Response) (t : String)
      → p.network (csrf_request p ∷ s.sent) ≡ answered r
      → is_ok r ≡ true
      → offered_token r ≡ some t
      → refresh_token p s ≡ (ok t, refreshed p s (csrf_request p ∷ s.sent) t)
  unfolding refresh_token fetch
  refresh_token_lem s r t said good offered =
      rw
        (
          fetch_csrf_lem s,
          said,
          accept_token_lem (record s { sent = csrf_request p ∷ s.sent }) r t good offered,
        )
        refl

  send_again_lem :
      (s : Client) (headers : Headers) (send : Headers → Api Response) (r : Response) (t : String)
      → p.network (csrf_request p ∷ s.sent) ≡ answered r
      → is_ok r ≡ true
      → offered_token r ≡ some t
      → send_again p (get_csrf_token p) headers send s
        ≡ send (header_set csrf_header t headers) (refreshed p s (csrf_request p ∷ s.sent) t)
  unfolding send_again invalidate_local_csrf_token get_csrf_token cached_token
  send_again_lem s headers send r t said good offered =
      ap (λ x. after x (λ t. send (header_set csrf_header t headers)))
        (refresh_token_lem (record s { csrf_token = none; csrf_refresh_at = 0 }) r t said good
          offered)

  fetch_answered :
      (q : Sent) (s : Client) (r : Response)
      → p.network (q ∷ s.sent) ≡ answered r
      → fetch p q s ≡ (ok r, record s { sent = q ∷ s.sent })
  unfolding fetch
  fetch_answered q s r said = rw said refl

  retry_lem :
      (method : String) (headers : Headers) (send : Headers → Api Response) (s u : Client)
      (refusal granted : Response) (t : String)
      → is_mutating method ≡ true
      → send headers s ≡ (ok refusal, u)
      → is_csrf_failure refusal ≡ true
      → p.network (csrf_request p ∷ u.sent) ≡ answered granted
      → is_ok granted ≡ true
      → offered_token granted ≡ some t
      → send_with_csrf_recovery p (get_csrf_token p) method headers send s
        ≡ send (header_set csrf_header t headers) (refreshed p u (csrf_request p ∷ u.sent) t)
  unfolding send_with_csrf_recovery recover
  retry_lem method headers send s u refusal granted t mutating said refused said_again good
        offered =
      ap (λ x. after x (recover p (get_csrf_token p) method headers send)) said
      ∙ rw (mutating, refused) (send_again_lem u headers send granted t said_again good offered)

-- A mapped request of a method that changes something, once its headers have a token, which was given,
-- cached or fetched: if the server refuses that token and then hands out a new one, the request is sent
-- once more, with the new token, which is cached, and the answer to that is the result, also if it is a
-- refusal again.
pub api_fetch_retry :
    (p : Platform) (input : Input) (init : RequestInit) (s u : Client) (headers : Headers)
    (refusal granted : Response) (t : String)
    → is_mapped p ≡ true
    → is_mutating (p.to_upper (get_or init.method (input_method input))) ≡ true
    → let method = p.to_upper (get_or init.method (input_method input)) in
      let given = get_or init.headers (input_headers input) in
      let first = mapped_request p input init method headers ∷ u.sent in
      with_token p (get_csrf_token p) method given s ≡ (ok headers, u)
      → p.network first ≡ answered refusal
      → is_csrf_failure refusal ≡ true
      → p.network (csrf_request p ∷ first) ≡ answered granted
      → is_ok granted ≡ true
      → offered_token granted ≡ some t
      → api_fetch p input init s
        ≡ fetch p
            (mapped_request p input init method (header_set csrf_header t headers))
            (refreshed p u (csrf_request p ∷ first) t)
unfolding api_fetch api_fetch_with dispatch send_mapped
api_fetch_retry p input init s u headers refusal granted t mapped mutating held said refused
      said_again good offered =
    rw (held, mapped)
      (retry_lem p mapped method headers (send_mapped p input init method) u _ refusal granted t
        mutating
        (fetch_answered p mapped (mapped_request p input init method headers) u refusal said)
        refused said_again good offered)
  where
    method : String
    method = p.to_upper (get_or init.method (input_method input))
