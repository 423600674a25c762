-- ===== src/Accounts/Laws.antt =====
-- frontend/src/lib/auth.tsx and applicationAuth.tsx: when a user counts as authenticated, what a request
-- that is refused does to the status, and what signing out and refreshing leave.
use agent_workflow_fast_api.Base.{
  String, Bool, true, false, [], ◌∷◌, ◌++◌, Option, none, some, ◌≡◌, ◌↔◌, refl, sym, ap, ◌∙◌, subst,
  ◌==◌, string_eq, number_eq, if◌then◌else◌, Result, ok, err, Bool-cases, Option-cases, inl, inr,
}
use agent_workflow_fast_api.Http.Message.{Response, RequestInit, Input}
use agent_workflow_fast_api.Http.Client.Fetch.{Platform, Client, ApiError}
use agent_workflow_fast_api.Http.Requests.Backend.{
  BackendRequestError, RequestError, backend_error, Requests, Body, is_refusal, request_backend,
}
use agent_workflow_fast_api.Http.Requests.Laws.{reported, request_backend-IsReported}
use agent_workflow_fast_api.Http.Session.Calls.{sign_out_local_session}
use agent_workflow_fast_api.Http.Session.Laws.{sign_out_local_session_forgets}
use agent_workflow_fast_api.Accounts.Session.{
  User, AuthSession, SessionStatus, authenticated, loading, unauthenticated, session_status,
  invalidate, sign_out, signed_out,
}
use agent_workflow_fast_api.Accounts.Application.{
  Application, ApplicationStatus, CurrentUser, UserStatus, AccessState, BlockedStatus, is_loading,
  is_unauthenticated, is_pending_workspace, is_authenticated, is_suspended, active, suspended,
  ready, pending_workspace, blocked_pending, blocked_suspended, code_is, code_of, data_for,
  current_user, application_status, status_unless_blocked, status_by_query, status_for,
  status_by_error, on_authorization_failure,
}

-- All that the status `authenticated` says.
abbrev pub IsSignedIn : Application → Type 0
IsSignedIn a =
    (u : User) × (user : CurrentUser) × (a.session.user ≡ some u)
    × (a.blocked_status ≡ none)
    × (a.query_error ≡ none)
    × (a.query_is_loading ≡ false)
    × (a.query_data ≡ some user)
    × (user.status ≡ active)
    × (user.access_state ≡ ready)

abbrev shape : Option User → Bool → SessionStatus
shape none r = if r then unauthenticated else loading
shape (some u) r = authenticated

abbrev by_session : SessionStatus → ApplicationStatus → ApplicationStatus
by_session authenticated other = other
by_session loading other = is_loading
by_session unauthenticated other = is_unauthenticated

abbrev status_of :
    Option User
    → Bool
    → Option BlockedStatus
    → Option BackendRequestError
    → Bool
    → Option CurrentUser
    → ApplicationStatus
status_of u r b e l d =
    by_session (shape u r) (status_unless_blocked b (status_by_query e l (data_for u d)))

application_status-status_of :
    (a : Application)
    → application_status a
      ≡ status_of a.session.user a.session.is_ready a.blocked_status a.query_error
          a.query_is_loading a.query_data
unfolding application_status session_status current_user
application_status-status_of a = elim (Option-cases a.session.user) [
  | inl e ↦ rw e (elim (Bool-cases a.session.is_ready) [ inl r ↦ rw r refl | inr r ↦ rw r refl ])
  | inr (u, e) ↦ rw e refl
]

status_by_error-refuses : (e : BackendRequestError) → status_by_error e ≡ is_authenticated → ⊥
status_by_error-refuses e h = elim (Bool-cases (e.status == 401)) [
  | inl k ↦ (let g = rw k at h in cc)
  | inr k ↦ (let g = rw k at h in cc)
]

status_by_query-refuses :
    (e : BackendRequestError) (l : Bool) (user : Option CurrentUser)
    → status_by_query (some e) l user ≡ is_authenticated
    → ⊥
status_by_query-refuses e l user h =
    elim (Bool-cases (code_is "user:suspended" (code_of e.payload))) [
      | inl k ↦ (let g = rw k at h in cc)
      | inr k ↦ elim (Bool-cases (code_is "workspace:membership_required" (code_of e.payload))) [
        | inl m ↦ (let g = rw (k, m) at h in cc)
        | inr m ↦ status_by_error-refuses e (rw (k, m) at h)
      ]
    ]

status_for-authenticated :
    (user : CurrentUser) (s : UserStatus) (t : AccessState)
    → user.status ≡ s
    → user.access_state ≡ t
    → status_for user ≡ is_authenticated
    → (user.status ≡ active) × (user.access_state ≡ ready)
status_for-authenticated user active ready e f h = (e, f)
status_for-authenticated user active pending_workspace e f h = cc
status_for-authenticated user suspended t e f h = cc

signed_in :
    (u : Option User) (r : Bool) (b : Option BlockedStatus) (e : Option BackendRequestError)
    (l : Bool) (d : Option CurrentUser)
    → status_of u r b e l d ≡ is_authenticated
    → (x : User) × (user : CurrentUser) × (u ≡ some x)
      × (b ≡ none)
      × (e ≡ none)
      × (l ≡ false)
      × (d ≡ some user)
      × (user.status ≡ active)
      × (user.access_state ≡ ready)
signed_in none true b e l d h = cc
signed_in none false b e l d h = cc
signed_in (some x) r (some blocked_pending) e l d h = cc
signed_in (some x) r (some blocked_suspended) e l d h = cc
signed_in (some x) r none (some e) l d h =
    absurd (status_by_query-refuses e l (data_for (some x) d) h)
signed_in (some x) r none none true d h = cc
signed_in (some x) r none none false none h = cc
signed_in (some x) r none none false (some user) h =
    let (active_now, ready_now) =
      status_for-authenticated user user.status user.access_state refl refl h in
    (x, user, refl, refl, refl, refl, refl, active_now, ready_now)

-- The status is `authenticated` just if there is a session, no refusal has blocked it, and the query
-- for the current user has ended without an error, with a user who is active and has access.
pub application_status-authenticated_iff :
    (a : Application) → (application_status a ≡ is_authenticated) ↔ IsSignedIn a
application_status-authenticated_iff a = (
  λ h.
      signed_in a.session.user a.session.is_ready a.blocked_status a.query_error a.query_is_loading
        a.query_data (sym (application_status-status_of a) ∙ h),
  λ (x, user, e1, e2, e3, e4, e5, e6, e7).
      application_status-status_of a ∙ rw (e1, e2, e3, e4, e5, e6, e7) refl,
)

-- The status of a signed-in user after a refusal.
abbrev pub verdict : BackendRequestError → ApplicationStatus → ApplicationStatus
verdict e before =
    if e.status == 401
    then is_unauthenticated
    else if code_is "user:suspended" (code_of e.payload)
    then is_suspended
    else if code_is "workspace:membership_required" (code_of e.payload)
    then is_pending_workspace
    else before

failure-verdict :
    (encode : String → String) (e : BackendRequestError) (a : Application) (u : User)
    → a.session.user ≡ some u
    → application_status (on_authorization_failure encode e a) ≡ verdict e (application_status a)
unfolding on_authorization_failure application_status session_status invalidate
failure-verdict encode e a u held = elim (Bool-cases (e.status == 401)) [
  | inl k ↦ rw k refl
  | inr k ↦ elim (Bool-cases (code_is "user:suspended" (code_of e.payload))) [
    | inl m ↦ rw (k, m) (rw held refl)
    | inr m ↦ elim (Bool-cases (code_is "workspace:membership_required" (code_of e.payload))) [
      | inl n ↦ rw (k, m, n) (rw held refl)
      | inr n ↦ rw (k, m, n) refl
    ]
  ]
]

-- If a request of a signed-in user is answered with an error of status 401 or 403, while the handler
-- is set, then the handler is called with that error, once, and the user's status after it is
-- `unauthenticated` for the status 401, else `suspended` or `pending_workspace` if the code says so,
-- and else what it was.
pub request_backend-verdict :
    (p : Platform) (text_of : Response → String) (triggered : Bool) (input : Input)
    (init : RequestInit) (encode : String → String) (s t : Requests) (e : BackendRequestError)
    (a : Application) (u : User)
    → request_backend p text_of triggered input init s ≡ (err (backend_error e), t)
    → s.has_handler ≡ true
    → is_refusal e.status ≡ true
    → a.session.user ≡ some u
    → (t.failures ≡ e ∷ s.failures)
      × (application_status (on_authorization_failure encode e a)
          ≡ verdict e (application_status a))
request_backend-verdict p text_of triggered input init encode s t e a u said set refusal held =
    let (told, uploads) = request_backend-IsReported p text_of triggered input init [] s in
    let whole : t.failures ≡ reported (err (backend_error e)) s.has_handler ++ s.failures =
      subst
        (λ (r : Result RequestError Body × Requests).
          r.1.failures ≡ reported r.0 s.has_handler ++ s.failures)
        said told.failures in
    let one : reported (err (backend_error e)) s.has_handler ≡ e ∷ [] = rw (set, refusal) refl in
    (whole ∙ ap (λ l. l ++ s.failures) one, failure-verdict encode e a u held)

-- How signing out ends.
abbrev pub SignedOut : AuthSession → Result ApiError (Unit {0}) × AuthSession → Type 0
SignedOut before (ok done, after) =
    (session_status after ≡ unauthenticated)
    × (after.locations ≡ "/login?reason=signed_out" ∷ before.locations)
    × (after.client.csrf_token ≡ none)
SignedOut before (err e, after) =
    (session_status after ≡ unauthenticated)
    × (after.locations ≡ "/login?reason=signed_out" ∷ before.locations)

-- However the backend answers, after signing out the browser holds no session and is sent to the page
-- for signing in; if the call succeeded, it holds no CSRF token either.
pub sign_out-SignedOut : (p : Platform) (s : AuthSession) → SignedOut s (sign_out p s)
unfolding sign_out session_status
sign_out-SignedOut p s = by_result (sign_out_local_session p s.client) refl
  where
    by_result :
        (r : Result ApiError (Unit {0}) × Client)
        → sign_out_local_session p s.client ≡ r
        → SignedOut s (r.0, signed_out r s)
    by_result (ok done, c) e = (refl, refl, sign_out_local_session_forgets p s.client c e)
    by_result (err x, c) e = (refl, refl)
