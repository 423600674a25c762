-- ===== src/Http/Client/Laws/Growth.antt =====
-- frontend/src/lib/backend/directClient.ts: how many requests a call sends.
use agent_workflow_fast_api.Base.{
  ℕ, ◌+◌, ◌≤◌, String, Bool, true, false, not, ◌&&◌, ◌||◌, ◌∷◌, none, ◌≡◌, refl, arith, length,
  get_or, if◌then◌else◌, Result, ok, err, after, resolve, ◌>>=◌, Option-cases, inl, inr,
}
use agent_workflow_fast_api.Http.Message.{
  Response, Headers, header_has, header_set, RequestInit, Input, Sent, Reply, unreachable, answered,
}
use agent_workflow_fast_api.Http.Client.Fetch.{
  Platform, Client, ApiError, Api, is_mapped, is_mutating, is_csrf_failure, input_headers,
  input_method, invalidate_local_csrf_token, reply_to, fetch, send_mapped, send_plain, send_again,
  recover, add_token, dispatch, csrf_header, send_with_csrf_recovery, with_token, api_fetch_with,
}
use agent_workflow_fast_api.Http.Client.Token.{
  offered_token, accept_token, store_token, fetch_csrf, refresh_token, cached_token, get_csrf_token,
  api_fetch, csrf_url, csrf_init,
}

-- From any state, the call leaves at most `n` requests more than before.
abbrev Sends : {A : Type 0} → ℕ → Api A → Type 0
Sends n m = (s : Client) → length (m s).1.sent ≤ length s.sent + n

Sends-after :
    {A B : Type 0} (f : A → Api B) (n k : ℕ) (r : Result ApiError A × Client)
    → length r.1.sent ≤ k
    → ((a : A) → Sends n (f a))
    → length (after r f).1.sent ≤ k + n
Sends-after f n k (ok a, s) h g = omega (arith, g a s)
Sends-after f n k (err e, s) h g = omega arith

Sends->>= :
    {A B : Type 0} (m : Api A) (f : A → Api B) (a b : ℕ)
    → Sends a m
    → ((x : A) → Sends b (f x))
    → Sends (a + b) (m >>= f)
Sends->>= m f a b h g s = omega (arith, Sends-after f b (length s.sent + a) (m s) (h s) g)

Sends-if :
    {A : Type 0} (b : Bool) (m k : Api A) (n : ℕ)
    → Sends n m
    → Sends n k
    → Sends n (if b then m else k)
Sends-if true m k n h g = h
Sends-if false m k n h g = g

module _ (p : Platform) where
  Sends-fetch : (r : Sent) → Sends 1 (fetch p r)
  unfolding fetch
  Sends-fetch r s = by_reply (p.network (r ∷ s.sent))
    where
      by_reply :
          (reply : Reply)
          → length (reply_to p reply (record s { sent = r ∷ s.sent })).1.sent ≤ length s.sent + 1
      by_reply unreachable = omega arith
      by_reply (answered x) = omega arith

  module _ (get_token : Bool → Api String) (cost : ℕ)
      (priced : (force : Bool) → Sends cost (get_token force)) where
    Sends-send_again :
        (headers : Headers) (send : Headers → Api Response)
        → ((h : Headers) → Sends 1 (send h))
        → Sends (cost + 1) (send_again p get_token headers send)
    unfolding send_again invalidate_local_csrf_token
    Sends-send_again headers send one s =
        Sends->>= (get_token true) (λ t. send (header_set csrf_header t headers)) cost 1
          (priced true) (λ t. one (header_set csrf_header t headers))
          (record s { csrf_token = none; csrf_refresh_at = 0 })

    Sends-recover :
        (method : String) (headers : Headers) (send : Headers → Api Response) (r : Response)
        → ((h : Headers) → Sends 1 (send h))
        → Sends (cost + 1) (recover p get_token method headers send r)
    unfolding recover
    Sends-recover method headers send r one =
        Sends-if (not (is_mutating method) || not (is_csrf_failure r)) (resolve r)
          (send_again p get_token headers send) (cost + 1) (λ u. omega arith)
          (Sends-send_again headers send one)

    Sends-recovery :
        (method : String) (headers : Headers) (send : Headers → Api Response)
        → ((h : Headers) → Sends 1 (send h))
        → Sends (cost + 2) (send_with_csrf_recovery p get_token method headers send)
    unfolding send_with_csrf_recovery
    Sends-recovery method headers send one s = omega (
      arith,
      Sends->>= (send headers) (recover p get_token method headers send) 1 (cost + 1) (one headers)
          (λ r. Sends-recover method headers send r one) s,
    )

    Sends-with_token :
        (method : String) (headers : Headers) → Sends cost (with_token p get_token method headers)
    unfolding with_token add_token
    Sends-with_token method headers =
        Sends-if (is_mutating method && not (header_has csrf_header headers))
          (add_token p get_token headers) (resolve headers) cost
          (λ s. omega (
            arith,
            Sends->>= (get_token false) (λ t. resolve (header_set csrf_header t headers)) cost 0
                (priced false) (λ t u. omega arith) s,
          ))
          (λ s. omega arith)

    Sends-dispatch :
        (input : Input) (init : RequestInit) (method : String) (headers : Headers)
        → Sends (cost + 2) (dispatch p get_token input init method headers)
    unfolding dispatch send_mapped send_plain
    Sends-dispatch input init method headers =
        Sends-if (is_mapped p)
          (send_with_csrf_recovery p get_token method headers (send_mapped p input init method))
          (send_plain p input init) (cost + 2)
          (Sends-recovery method headers (send_mapped p input init method) (λ h. Sends-fetch _))
          (λ s. omega (arith, Sends-fetch _ s))

    Sends-api_fetch_with :
        (input : Input) (init : RequestInit)
        → Sends (cost + (cost + 2)) (api_fetch_with p get_token input init)
    unfolding api_fetch_with
    Sends-api_fetch_with input init =
        Sends->>= (with_token p get_token method given) (dispatch p get_token input init method)
          cost (cost + 2) (Sends-with_token method given) (Sends-dispatch input init method)
      where
        method : String
        method = p.to_upper (get_or init.method (input_method input))

        given : Headers
        given = get_or init.headers (input_headers input)

  -- A method that changes nothing is sent once.
  Sends-safe :
      (get_token : Bool → Api String) (input : Input) (init : RequestInit)
      → is_mutating (p.to_upper (get_or init.method (input_method input))) ≡ false
      → Sends 1 (api_fetch_with p get_token input init)
  unfolding api_fetch_with with_token dispatch send_with_csrf_recovery recover send_mapped
      send_plain
  Sends-safe get_token input init h s = rw h (
      Sends-if (is_mapped p) (send_mapped p input init method given >>= λ r. resolve r)
        (send_plain p input init) 1
        (λ u. omega (
          arith,
          Sends->>= (send_mapped p input init method given) (λ r. resolve r) 1 0 (Sends-fetch _)
              (λ r v. omega arith) u,
        ))
        (Sends-fetch _) s)
    where
      method : String
      method = p.to_upper (get_or init.method (input_method input))

      given : Headers
      given = get_or init.headers (input_headers input)

  Sends-accept_token : (r : Response) → Sends 0 (accept_token p r)
  unfolding accept_token store_token
  Sends-accept_token r s = elim (Option-cases (offered_token r)) [
    | inl e ↦ rw (e, accept_token) (omega arith)
    | inr (t, e) ↦ rw (e, accept_token) (ground arith)
  ]

  csrf_is_safe : is_mutating (p.to_upper (get_or csrf_init.method (input_method csrf_url))) ≡ false
  unfolding is_mutating
  csrf_is_safe = rw p.to_upper-get refl

  Sends-refresh_token : Sends 1 (refresh_token p)
  unfolding refresh_token fetch_csrf
  Sends-refresh_token s = omega (
    arith,
    Sends->>= (fetch_csrf p) (accept_token p) 1 0 (Sends-safe _ csrf_url csrf_init csrf_is_safe)
        Sends-accept_token s,
  )

  Sends-get_csrf_token : (force : Bool) → Sends 1 (get_csrf_token p force)
  unfolding get_csrf_token refresh_token fetch_csrf
  Sends-get_csrf_token force s = elim (Option-cases (cached_token p force s)) [
    | inr (t, e) ↦ rw (e, get_csrf_token) (omega arith)
    | inl e ↦ rw (e, get_csrf_token) (Sends-refresh_token s)
  ]

-- One `apiFetch` sends four requests at most: a token, the request, a new token and the request once
-- more.
pub length-sent-api_fetch :
    (p : Platform) (input : Input) (init : RequestInit) (s : Client)
    → length (api_fetch p input init s).1.sent ≤ length s.sent + 4
unfolding api_fetch
length-sent-api_fetch p = Sends-api_fetch_with p (get_csrf_token p) 1 (Sends-get_csrf_token p)

-- With a method that changes nothing it sends one, and never asks for a token.
length-sent-api_fetch_safe :
    (p : Platform) (input : Input) (init : RequestInit) (s : Client)
    → is_mutating (p.to_upper (get_or init.method (input_method input))) ≡ false
    → length (api_fetch p input init s).1.sent ≤ length s.sent + 1
unfolding api_fetch
length-sent-api_fetch_safe p input init s h = Sends-safe p (get_csrf_token p) input init h s
