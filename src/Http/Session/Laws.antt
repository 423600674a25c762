-- ===== src/Http/Session/Laws.antt =====
-- frontend/src/lib/auth/localSession.ts: what the session calls announce, return and leave cached.
use agent_workflow_fast_api.Base.{
  ℕ, suc, String, Bool, true, false, not, ◌&&◌, Option, none, some, ◌≡◌, refl, sym, ap, ◌∙◌, subst,
  arith, ◌==◌, string_eq, number_eq, Result, ok, err, after, resolve, ◌>>=◌, ◌>>◌, >>=-eq-ok,
}
use agent_workflow_fast_api.Http.Message.{Response, Payload, is_ok, answered, Fields}
use agent_workflow_fast_api.Http.Client.Fetch.{
  Platform, Client, ApiError, Api, is_mapped, is_mutating, invalidate_local_csrf_token,
}
use agent_workflow_fast_api.Http.Client.Token.{response_payload, get_csrf_token, api_fetch}
use agent_workflow_fast_api.Http.Client.Laws.Carried.{api_fetch-IsAnswer}
use agent_workflow_fast_api.Http.Session.Calls.{
  LocalSessionResponse, session_of, read_session, announce, invalidate_if, require_ok,
  sign_in_with_local_session, sign_out_local_session, post_for_session, activate_local_invitation,
  change_local_password,
}
use agent_workflow_fast_api.Http.Session.Quiet.{Quiet, Quiet-get_csrf_token, Quiet-api_fetch}

-- A call that announces a change if it succeeds, and none if it fails.
abbrev pub Told : {A : Type 0} → ℕ → Result ApiError A × Client → Type 0
Told n (ok a, s) = s.auth_changes ≡ suc n
Told n (err e, s) = s.auth_changes ≡ n

abbrev pub Announces : {A : Type 0} → Api A → Type 0
Announces m = (s : Client) → Told s.auth_changes (m s)

Announces-after :
    {A B : Type 0} (f : A → Api B) (n : ℕ) (r : Result ApiError A × Client)
    → r.1.auth_changes ≡ n
    → ((a : A) → Announces (f a))
    → Told n (after r f)
Announces-after f n (ok a, s) h g = subst (λ k. Told k (f a s)) h (g a s)
Announces-after f n (err e, s) h g = h

Announces->>= :
    {A B : Type 0} (m : Api A) (f : A → Api B)
    → Quiet m
    → ((a : A) → Announces (f a))
    → Announces (m >>= f)
Announces->>= m f h g s = Announces-after f s.auth_changes (m s) (h s) g

Quiet-invalidate_if : (b : Bool) → Quiet (invalidate_if b)
unfolding invalidate_local_csrf_token
Quiet-invalidate_if true s = refl
Quiet-invalidate_if false s = refl

Quiet-require_ok : (r : Response) → Quiet (require_ok r)
unfolding require_ok invalidate_local_csrf_token
Quiet-require_ok r s = ground arith

finish : LocalSessionResponse → Api LocalSessionResponse
finish session = do announce; resolve session

Announces-finish : (session : LocalSessionResponse) → Announces (finish session)
unfolding finish announce
Announces-finish session s = refl

Quiet-read_session : (r : Response) → Quiet (read_session r)
unfolding read_session
Quiet-read_session r s = refl

Announces-sign_in :
    (p : Platform) (email password : String)
    → Announces (sign_in_with_local_session p email password)
unfolding sign_in_with_local_session finish
Announces-sign_in p email password =
    Announces->>= (get_csrf_token p false) _ (Quiet-get_csrf_token p false) λ token.
      Announces->>= (api_fetch p _ _) _ (Quiet-api_fetch p _ _) λ r.
        Announces->>= (invalidate_if _) _ (Quiet-invalidate_if _)
          λ u. Announces->>= (read_session r) finish (Quiet-read_session r) Announces-finish

Announces-post_for_session :
    (p : Platform) (path : String) (body : Fields) → Announces (post_for_session p path body)
unfolding post_for_session finish
Announces-post_for_session p path body =
    Announces->>= (get_csrf_token p false) _ (Quiet-get_csrf_token p false) λ token.
      Announces->>= (api_fetch p _ _) _ (Quiet-api_fetch p _ _) λ r.
        Announces->>= (require_ok r) _ (Quiet-require_ok r)
          λ u. Announces->>= (read_session r) finish (Quiet-read_session r) Announces-finish

Announces-sign_out : (p : Platform) → Announces (sign_out_local_session p)
unfolding sign_out_local_session invalidate_local_csrf_token announce
Announces-sign_out p =
    Announces->>= (get_csrf_token p false) _ (Quiet-get_csrf_token p false) λ token.
      Announces->>= (api_fetch p _ _) _ (Quiet-api_fetch p _ _)
        λ r. Announces->>= (require_ok r) _ (Quiet-require_ok r) λ u s. refl

-- Signing in, signing out, activating an invitation and changing the password announce one change of
-- the session if they succeed, and none if they fail.
session_calls_announce :
    (p : Platform) (s : Client) (email password token name : String)
    → Told s.auth_changes (sign_in_with_local_session p email password s)
      × Told s.auth_changes (sign_out_local_session p s)
      × Told s.auth_changes (activate_local_invitation p token password (some name) s)
      × Told s.auth_changes (change_local_password p password token s)
unfolding activate_local_invitation change_local_password
session_calls_announce p s email password token name = (
  Announces-sign_in p email password s,
  Announces-sign_out p s,
  Announces-post_for_session p _ _ s,
  Announces-post_for_session p _ _ s,
)

sign_out_cleared :
    (p : Platform) (r : Response) (u s' : Client)
    → (do require_ok r; invalidate_local_csrf_token; announce) u ≡ (ok tt, s')
    → s'.csrf_token ≡ none
unfolding require_ok invalidate_local_csrf_token announce
sign_out_cleared p r u s' h = ground arith

-- After signing out no CSRF token is cached.
pub sign_out_local_session_forgets :
    (p : Platform) (s s' : Client) → sign_out_local_session p s ≡ (ok tt, s') → s'.csrf_token ≡ none
unfolding sign_out_local_session
sign_out_local_session_forgets p s s' h =
    let (token, u, got, rest) = >>=-eq-ok (get_csrf_token p false) _ s h in
    let (r, v, answer, end) = >>=-eq-ok (api_fetch p _ _) _ u rest in sign_out_cleared p r v s' end

-- What a session that is returned rests on: the newest answer has a good status and says the same.
pub record IsBacked (p : Platform) (session : LocalSessionResponse) (s : Client) : Type 0 where
  pub response : Response
  pub payload : Payload
  pub answer : p.network s.sent ≡ answered response
  pub good : is_ok response ≡ true
  pub read : response_payload response ≡ some payload
  pub says : payload.authenticated ≡ some session.authenticated
  pub same_user : payload.user ≡ session.user

session_of-eq-ok :
    (r : Response) (o : Option Payload) (session : LocalSessionResponse)
    → session_of r o ≡ ok session
    → (x : Payload) × (o ≡ some x)
      × (is_ok r ≡ true)
      × (x.authenticated ≡ some session.authenticated)
      × (x.user ≡ session.user)
unfolding session_of
session_of-eq-ok r none session h = cc
session_of-eq-ok r (some x) session h = (x, refl, ground arith, ground arith, ground arith)

finish_keeps :
    (session returned : LocalSessionResponse) (u s' : Client)
    → finish session u ≡ (ok returned, s')
    → (session ≡ returned) × (u.sent ≡ s'.sent)
unfolding finish announce
finish_keeps session returned u s' h = ground arith

read_session-IsBacked :
    (p : Platform) (r : Response) (u : Client) (session : LocalSessionResponse) (s' : Client)
    → p.network u.sent ≡ answered r
    → (read_session r >>= finish) u ≡ (ok session, s')
    → IsBacked p session s'
unfolding read_session
read_session-IsBacked p r u session s' said h =
    let (found, v, got, rest) = >>=-eq-ok (read_session r) finish u h in
    let (same, kept) = finish_keeps found session v s' rest in
    let (x, read, good, says, user) =
      session_of-eq-ok r (response_payload r) found (ap (λ t. t.0) got) in
    record {
      response = r;
      payload = x;
      answer = ap p.network (sym kept ∙ sym (ap (λ t. t.1.sent) got)) ∙ said;
      good = good;
      read = read;
      says = says ∙ ap (λ z. some z.authenticated) same;
      same_user = user ∙ ap (λ z. z.user) same;
    }

invalidate_if_keeps : (b : Bool) (u v : Client) → invalidate_if b u ≡ (ok tt, v) → v.sent ≡ u.sent
unfolding invalidate_local_csrf_token
invalidate_if_keeps true u v h = sym (ap (λ t. t.1.sent) h)
invalidate_if_keeps false u v h = sym (ap (λ t. t.1.sent) h)

post_is_mutating : (p : Platform) → is_mutating (p.to_upper "POST") ≡ true
unfolding is_mutating
post_is_mutating p = rw p.to_upper-post refl

-- If the browser talks to the API through the proxy or directly, signing in returns a session only if
-- the network's answer to the newest request has a good status and a JSON payload that says whether
-- the user is authenticated, and the session has that answer and user.
pub sign_in-IsBacked :
    (p : Platform) (email password : String) (s : Client) (session : LocalSessionResponse)
    (s' : Client)
    → is_mapped p ≡ true
    → sign_in_with_local_session p email password s ≡ (ok session, s')
    → IsBacked p session s'
unfolding sign_in_with_local_session finish
sign_in-IsBacked p email password s session s' mapped h =
    let (token, u, got, rest) = >>=-eq-ok (get_csrf_token p false) _ s h in
    let (r, v, sent, later) = >>=-eq-ok (api_fetch p _ _) _ u rest in
    let stale = not (is_ok r) && (r.status == 403) in
    let (done, w, cleared, end) =
      >>=-eq-ok (invalidate_if stale) (λ _. read_session r >>= finish) v later in
    let answer = api_fetch-IsAnswer p _ _ u r v mapped (post_is_mutating p) sent in
    read_session-IsBacked p r w session s'
      (ap p.network (invalidate_if_keeps stale v w cleared) ∙ answer.answer) end
