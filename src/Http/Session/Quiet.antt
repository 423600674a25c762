-- ===== src/Http/Session/Quiet.antt =====
-- frontend/src/lib/auth/localSession.ts and backend/directClient.ts: `apiFetch` and `getCsrfToken` announce no
-- change of the session.
use agent_workflow_fast_api.Base.{
  String, Bool, true, false, not, ◌&&◌, ◌||◌, ◌∷◌, none, ◌≡◌, refl, ◌∙◌, arith, string_eq,
  number_eq, get_or, if◌then◌else◌, Result, ok, err, after, resolve, ◌>>=◌, Option-cases, inl, inr,
}
use agent_workflow_fast_api.Http.Message.{
  Response, Headers, header_has, header_set, RequestInit, Input, Sent, Reply, unreachable, answered,
}
use agent_workflow_fast_api.Http.Client.Fetch.{
  Platform, Client, ApiError, Api, is_mapped, is_mutating, is_csrf_failure, input_headers,
  input_method, invalidate_local_csrf_token, reply_to, fetch, send_mapped, send_plain, send_again,
  recover, add_token, dispatch, csrf_header, send_with_csrf_recovery, with_token, api_fetch_with,
}
use agent_workflow_fast_api.Http.Client.Token.{
  offered_token, accept_token, store_token, fetch_csrf, refresh_token, cached_token, get_csrf_token,
  api_fetch,
}

-- A call that announces nothing.
abbrev pub Quiet : {A : Type 0} → Api A → Type 0
Quiet m = (s : Client) → (m s).1.auth_changes ≡ s.auth_changes

pub Quiet-after :
    {A B : Type 0} (f : A → Api B) (r : Result ApiError A × Client)
    → ((a : A) → Quiet (f a))
    → (after r f).1.auth_changes ≡ r.1.auth_changes
Quiet-after f (ok a, s) h = h a s
Quiet-after f (err e, s) h = refl

pub Quiet->>= :
    {A B : Type 0} (m : Api A) (f : A → Api B) → Quiet m → ((a : A) → Quiet (f a)) → Quiet (m >>= f)
Quiet->>= m f h g s = Quiet-after f (m s) g ∙ h s

Quiet-if : {A : Type 0} (b : Bool) (m k : Api A) → Quiet m → Quiet k → Quiet (if b then m else k)
Quiet-if true m k h g = h
Quiet-if false m k h g = g

module _ (p : Platform) where
  Quiet-fetch : (r : Sent) → Quiet (fetch p r)
  unfolding fetch
  Quiet-fetch r s = by_reply (p.network (r ∷ s.sent))
    where
      by_reply :
          (reply : Reply)
          → (reply_to p reply (record s { sent = r ∷ s.sent })).1.auth_changes ≡ s.auth_changes
      by_reply unreachable = refl
      by_reply (answered x) = refl

  module _ (get_token : Bool → Api String) (quiet : (force : Bool) → Quiet (get_token force)) where
    Quiet-send_again :
        (headers : Headers) (send : Headers → Api Response)
        → ((h : Headers) → Quiet (send h))
        → Quiet (send_again p get_token headers send)
    unfolding send_again invalidate_local_csrf_token
    Quiet-send_again headers send h s =
        Quiet->>= (get_token true) (λ t. send (header_set csrf_header t headers)) (quiet true)
          (λ t. h (header_set csrf_header t headers))
          (record s { csrf_token = none; csrf_refresh_at = 0 })

    Quiet-recover :
        (method : String) (headers : Headers) (send : Headers → Api Response) (r : Response)
        → ((h : Headers) → Quiet (send h))
        → Quiet (recover p get_token method headers send r)
    unfolding recover
    Quiet-recover method headers send r h =
        Quiet-if (not (is_mutating method) || not (is_csrf_failure r)) (resolve r)
          (send_again p get_token headers send) (λ s. refl) (Quiet-send_again headers send h)

    Quiet-with_token :
        (method : String) (headers : Headers) → Quiet (with_token p get_token method headers)
    unfolding with_token add_token
    Quiet-with_token method headers =
        Quiet-if (is_mutating method && not (header_has csrf_header headers))
          (add_token p get_token headers) (resolve headers)
          (Quiet->>= (get_token false) (λ t. resolve (header_set csrf_header t headers))
            (quiet false) (λ t s. refl))
          (λ s. refl)

    Quiet-dispatch :
        (input : Input) (init : RequestInit) (method : String) (headers : Headers)
        → Quiet (dispatch p get_token input init method headers)
    unfolding dispatch send_with_csrf_recovery send_mapped send_plain
    Quiet-dispatch input init method headers =
        Quiet-if (is_mapped p)
          (send_with_csrf_recovery p get_token method headers (send_mapped p input init method))
          (send_plain p input init)
          (Quiet->>= (send_mapped p input init method headers)
            (recover p get_token method headers (send_mapped p input init method)) (Quiet-fetch _)
            (λ r.
              Quiet-recover method headers (send_mapped p input init method) r
                (λ h. Quiet-fetch _)))
          (Quiet-fetch _)

    Quiet-api_fetch_with :
        (input : Input) (init : RequestInit) → Quiet (api_fetch_with p get_token input init)
    unfolding api_fetch_with
    Quiet-api_fetch_with input init =
        Quiet->>= (with_token p get_token method given) (dispatch p get_token input init method)
          (Quiet-with_token method given) (Quiet-dispatch input init method)
      where
        method : String
        method = p.to_upper (get_or init.method (input_method input))

        given : Headers
        given = get_or init.headers (input_headers input)

  Quiet-accept_token : (r : Response) → Quiet (accept_token p r)
  unfolding accept_token store_token
  Quiet-accept_token r s = elim (Option-cases (offered_token r)) [
    | inl e ↦ rw (e, accept_token) refl
    | inr (t, e) ↦ rw (e, accept_token) (ground arith)
  ]

  pub Quiet-get_csrf_token : (force : Bool) → Quiet (get_csrf_token p force)
  unfolding get_csrf_token refresh_token fetch_csrf
  Quiet-get_csrf_token force s = elim (Option-cases (cached_token p force s)) [
    | inr (t, e) ↦ rw (e, get_csrf_token) refl
    | inl e ↦
        rw (e, get_csrf_token)
          (Quiet->>= (fetch_csrf p) (accept_token p) (Quiet-api_fetch_with _ (λ force u. refl) _ _)
            Quiet-accept_token s)
  ]

  pub Quiet-api_fetch : (input : Input) (init : RequestInit) → Quiet (api_fetch p input init)
  unfolding api_fetch
  Quiet-api_fetch = Quiet-api_fetch_with (get_csrf_token p) Quiet-get_csrf_token
