-- ===== src/Http/Client/Laws/Retry.antt =====
-- frontend/src/lib/backend/directClient.ts: what holds of every response that `sendWithCsrfRecovery`
-- returns, whichever of its two requests it answers.
use agent_workflow_fast_api.Base.{
  String, true, false, not, ◌||◌, [], ◌∷◌, none, ◌≡◌, ap, subst, arith, ==-refl, string_eq, Result,
  ok, resolve, >>=-eq-ok, Bool-cases, inl, inr,
}
use agent_workflow_fast_api.Http.Message.{
  Response, Headers, header_has, header_set, Reply, unreachable, answered,
}
use agent_workflow_fast_api.Http.Client.Fetch.{
  Platform, Client, Api, ApiError, is_mutating, is_csrf_failure, invalidate_local_csrf_token,
  reply_to, send_again, recover, add_token, csrf_header, send_with_csrf_recovery, with_token,
}
use agent_workflow_fast_api.Http.Client.Token.{get_csrf_token}

pub header_has-header_set :
    (name value : String) (h : Headers) → header_has name (header_set name value h) ≡ true
unfolding header_has header_set
header_has-header_set name value [] = ground (arith, ==-refl name)
header_has-header_set name value ((k, v) ∷ h) = ground (arith, header_has-header_set name value h)

-- An answered request leaves it on the list of those that were sent.
pub reply_to-eq-ok :
    (p : Platform) (reply : Reply) (u : Client) (r : Response) (s' : Client)
    → reply_to p reply u ≡ (ok r, s')
    → (reply ≡ answered r) × (u ≡ s')
reply_to-eq-ok p unreachable u r s' h = cc
reply_to-eq-ok p (answered x) u r s' h = ground arith

module _ (p : Platform) (method : String) where
  pub add_token_held :
      (headers : Headers) (s : Client) (hs : Headers) (s' : Client)
      → add_token p (get_csrf_token p) headers s ≡ (ok hs, s')
      → header_has csrf_header hs ≡ true
  unfolding add_token
  add_token_held headers s hs s' h =
      let (t, u, got, rest) =
        >>=-eq-ok (get_csrf_token p false) (λ t. resolve (header_set csrf_header t headers)) s h in
      let same : header_set csrf_header t headers ≡ hs = cc rest in
      subst (λ k. header_has csrf_header k ≡ true) same
        (header_has-header_set csrf_header t headers)

  pub with_token_held :
      (headers : Headers) (s : Client) (hs : Headers) (s' : Client)
      → is_mutating method ≡ true
      → with_token p (get_csrf_token p) method headers s ≡ (ok hs, s')
      → header_has csrf_header hs ≡ true
  unfolding with_token
  with_token_held headers s hs s' mutating h = elim (Bool-cases (header_has csrf_header headers)) [
    | inl e ↦
        let same : headers ≡ hs = ground arith in
        subst (λ k. header_has csrf_header k ≡ true) same e
    | inr e ↦ add_token_held headers s hs s' (rw (e, mutating, with_token) at h)
  ]

module _ (p : Platform) (method : String) (send : Headers → Api Response)
    (Q : Response → Client → Type 0)
    (sent : (headers : Headers) (s : Client) (r : Response) (s' : Client)
      → header_has csrf_header headers ≡ true
      → send headers s ≡ (ok r, s')
      → Q r s') where
  resolve_holds :
      (x : Response) (s : Client) (r : Response) (s' : Client)
      → Q x s
      → ◌≡◌ {A = Result ApiError Response × Client} (ok x, s) (ok r, s')
      → Q r s'
  resolve_holds x s r s' first h =
      let same_response : x ≡ r = cc h in
      subst (λ y. Q y s') same_response (subst (Q x) (ap (λ t. t.1) h) first)

  send_again_holds :
      (headers : Headers) (s : Client) (r : Response) (s' : Client)
      → send_again p (get_csrf_token p) headers send s ≡ (ok r, s')
      → Q r s'
  unfolding send_again invalidate_local_csrf_token
  send_again_holds headers s r s' h =
      let (t, u, got, rest) =
        >>=-eq-ok (get_csrf_token p true) (λ t. send (header_set csrf_header t headers))
          (record s { csrf_token = none; csrf_refresh_at = 0 }) h in
      sent (header_set csrf_header t headers) u r s' (header_has-header_set csrf_header t headers)
        rest

  recover_holds :
      (headers : Headers) (x : Response) (s : Client) (r : Response) (s' : Client)
      → Q x s
      → recover p (get_csrf_token p) method headers send x s ≡ (ok r, s')
      → Q r s'
  unfolding recover
  recover_holds headers x s r s' first h =
      elim (Bool-cases (not (is_mutating method) || not (is_csrf_failure x))) [
        | inl e ↦ resolve_holds x s r s' first (rw (e, recover) at h)
        | inr e ↦ send_again_holds headers s r s' (rw (e, recover) at h)
      ]

  pub recovery_holds :
      (headers : Headers) (s : Client) (r : Response) (s' : Client)
      → header_has csrf_header headers ≡ true
      → send_with_csrf_recovery p (get_csrf_token p) method headers send s ≡ (ok r, s')
      → Q r s'
  unfolding send_with_csrf_recovery
  recovery_holds headers s r s' held h =
      let (x, u, first, rest) =
        >>=-eq-ok (send headers) (recover p (get_csrf_token p) method headers send) s h in
      recover_holds headers x u r s' (sent headers s x u held first) rest
