-- ===== src/Http/Client/Laws/Uploads.antt =====
-- frontend/src/lib/backend/directClient.ts: the request whose response `apiUpload` returns.
use agent_workflow_fast_api.Base.{
  true, List, ◌∷◌, some, ◌≡◌, refl, sym, ap, ◌∙◌, subst, arith, ok, >>=-eq-ok, Bool-cases, inl, inr,
}
use agent_workflow_fast_api.Http.Message.{
  Response, Headers, header_has, Input, Fields, Sent, answered,
}
use agent_workflow_fast_api.Http.Client.Fetch.{
  Platform, Client, fetch, csrf_header, input_headers, send_with_csrf_recovery,
}
use agent_workflow_fast_api.Http.Client.Token.{get_csrf_token}
use agent_workflow_fast_api.Http.Client.Upload.{
  upload_target, send_upload_request, upload_headers, api_upload,
}
use agent_workflow_fast_api.Http.Client.Laws.Retry.{reply_to-eq-ok, add_token_held, recovery_holds}

-- The newest request posted the form to the target with a CSRF token, and the response is its answer.
pub record IsUploaded (p : Platform) (input : Input) (form : Fields) (r : Response) (s : Client)
    : Type 0 where
  pub last : Sent
  pub before : List Sent
  pub sent : s.sent ≡ last ∷ before
  pub posted : last.method ≡ "POST"
  pub address : last.address ≡ upload_target p input
  pub body : last.body ≡ some form
  pub token : header_has csrf_header last.headers ≡ true
  pub answer : p.network s.sent ≡ answered r

module _ (p : Platform) (input : Input) (form : Fields) where
  send_upload_request-IsUploaded :
      (headers : Headers) (s : Client) (r : Response) (s' : Client)
      → header_has csrf_header headers ≡ true
      → send_upload_request p input form headers s ≡ (ok r, s')
      → IsUploaded p input form r s'
  unfolding send_upload_request fetch
  send_upload_request-IsUploaded headers s r s' held h =
      let (said, same) = reply_to-eq-ok p _ _ r s' h in
      record {
        last = _;
        before = s.sent;
        sent = sym (ap (λ u. u.sent) same);
        posted = refl;
        address = refl;
        body = refl;
        token = held;
        answer = ap (λ u. p.network u.sent) (sym same) ∙ said;
      }

  upload_headers_held :
      (headers : Headers) (s : Client) (hs : Headers) (s' : Client)
      → upload_headers p headers s ≡ (ok hs, s')
      → header_has csrf_header hs ≡ true
  unfolding upload_headers
  upload_headers_held headers s hs s' h = elim (Bool-cases (header_has csrf_header headers)) [
    | inl e ↦
        let same : headers ≡ hs = ground arith in
        subst (λ k. header_has csrf_header k ≡ true) same e
    | inr e ↦ add_token_held p "POST" headers s hs s' (rw (e, upload_headers) at h)
  ]

-- In every mode a response that `apiUpload` returns is the network's answer to the newest request
-- sent, which posted the form to the target and carried a CSRF token.
pub api_upload-IsUploaded :
    (p : Platform) (input : Input) (form : Fields) (s : Client) (r : Response) (s' : Client)
    → api_upload p input form s ≡ (ok r, s')
    → IsUploaded p input form r s'
unfolding api_upload
api_upload-IsUploaded p input form s r s' h =
    let send = send_upload_request p input form in
    let (hs, u, got, rest) =
      >>=-eq-ok (upload_headers p (input_headers input))
        (λ hs. send_with_csrf_recovery p (get_csrf_token p) "POST" hs send) s h in
    recovery_holds p "POST" send (IsUploaded p input form)
      (send_upload_request-IsUploaded p input form) hs u r s'
      (upload_headers_held p input form (input_headers input) s hs u got) rest
