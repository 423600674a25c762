-- ===== src/Http/Client/Laws/Carried.antt =====
-- frontend/src/lib/backend/directClient.ts: the request whose response `apiFetch` returns.
use agent_workflow_fast_api.Base.{
  String, true, List, ◌∷◌, ◌≡◌, refl, sym, ap, ◌∙◌, string_eq, get_or, ok, >>=-eq-ok,
}
use agent_workflow_fast_api.Http.Urls.Mapping.{map_legacy_api_path}
use agent_workflow_fast_api.Http.Message.{
  Response, Headers, header_has, RequestInit, Input, Sent, answered,
}
use agent_workflow_fast_api.Http.Client.Fetch.{
  Platform, Client, is_mapped, is_mutating, input_headers, input_method, address_of, fetch,
  send_mapped, dispatch, csrf_header, with_token, api_fetch_with,
}
use agent_workflow_fast_api.Http.Client.Token.{get_csrf_token, api_fetch}
use agent_workflow_fast_api.Http.Client.Laws.Retry.{reply_to-eq-ok, with_token_held, recovery_holds}

-- The newest request went to the mapped address with a CSRF token, and the response is its answer.
pub record IsAnswer (p : Platform) (input : Input) (method : String) (r : Response) (s : Client)
    : Type 0 where
  pub last : Sent
  pub before : List Sent
  pub sent : s.sent ≡ last ∷ before
  pub address : last.address ≡ map_legacy_api_path p.encode p.mode (address_of input) method
  pub token : header_has csrf_header last.headers ≡ true
  pub answer : p.network s.sent ≡ answered r

module _ (p : Platform) (input : Input) (init : RequestInit) (method : String) where
  send_mapped-IsAnswer :
      (headers : Headers) (s : Client) (r : Response) (s' : Client)
      → header_has csrf_header headers ≡ true
      → send_mapped p input init method headers s ≡ (ok r, s')
      → IsAnswer p input method r s'
  unfolding send_mapped fetch
  send_mapped-IsAnswer headers s r s' held h =
      let (said, same) = reply_to-eq-ok p _ _ r s' h in
      record {
        last = _;
        before = s.sent;
        sent = sym (ap (λ u. u.sent) same);
        address = refl;
        token = held;
        answer = ap (λ u. p.network u.sent) (sym same) ∙ said;
      }

-- If the browser talks to the API through the proxy or directly, a response that `apiFetch` returns
-- for a method that changes something is the network's answer to the newest request sent, which went
-- to the mapped address and carried a CSRF token.
pub api_fetch-IsAnswer :
    (p : Platform) (input : Input) (init : RequestInit) (s : Client) (r : Response) (s' : Client)
    → is_mapped p ≡ true
    → is_mutating (p.to_upper (get_or init.method (input_method input))) ≡ true
    → api_fetch p input init s ≡ (ok r, s')
    → IsAnswer p input (p.to_upper (get_or init.method (input_method input))) r s'
unfolding api_fetch api_fetch_with dispatch
api_fetch-IsAnswer p input init s r s' mapped mutating h =
    let (hs, u, got, rest) =
      >>=-eq-ok (with_token p (get_csrf_token p) method given)
        (dispatch p (get_csrf_token p) input init method) s h in
    recovery_holds p method (send_mapped p input init method) (IsAnswer p input method)
      (send_mapped-IsAnswer p input init method) hs u r s'
      (with_token_held p method given s hs u mutating got) (rw (mapped, dispatch) at rest)
  where
    method : String
    method = p.to_upper (get_or init.method (input_method input))

    given : Headers
    given = get_or init.headers (input_headers input)
