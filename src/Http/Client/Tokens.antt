-- ===== src/Http/Client/Tokens.antt =====
-- frontend/src/lib/auth/localSession.ts: what `getCsrfToken` returns and caches.
use agent_workflow_fast_api.Base.{
  String, Bool, true, false, not, ◌&&◌, Option, none, some, ◌≡◌, ◌≢◌, refl, subst, ap, ◌∙◌, arith,
  ==_iff, string_eq, ltb, if◌then◌else◌, Result, ok, err, Option-cases, Bool-cases, inl, inr,
  >>=-eq-ok,
}
use agent_workflow_fast_api.Http.Urls.Params.{truthy}
use agent_workflow_fast_api.Http.Message.{Response, Payload, is_ok}
use agent_workflow_fast_api.Http.Client.Fetch.{Platform, Client, ApiError}
use agent_workflow_fast_api.Http.Client.Token.{
  response_payload, token_of, offered_token, store_token, accept_token, fetch_csrf, refresh_token,
  cached_token, get_csrf_token,
}

-- The token is cached and fresh.
record Holds (p : Platform) (t : String) (s : Client) : Type 0 where
  not_empty : t ≢ ""
  cached : s.csrf_token ≡ some t
  fresh : ltb (p.clock s.sent) s.csrf_refresh_at ≡ true

abbrev Held : Platform → Result ApiError String × Client → Type 0
Held p (ok t, s) = Holds p t s
Held p (err e, s) = Unit

truthy_sound : (o : Option String) (t : String) → truthy o ≡ some t → (t ≢ "") × (o ≡ some t)
truthy_sound none t h = cc
truthy_sound (some x) t h = ground (arith, ==_iff x "")

truthy-some : (t : String) → t ≢ "" → truthy (some t) ≡ some t
truthy-some t n = ground (arith, ==_iff t "")

offered_token_ne : (r : Response) (t : String) → offered_token r ≡ some t → t ≢ ""
offered_token_ne r t h = go (response_payload r) h
  where
    go : (o : Option Payload) → token_of o ≡ some t → t ≢ ""
    go none e = cc
    go (some x) e = (truthy_sound x.csrf_token t e).0

accept_token-Holds :
    (p : Platform) (r : Response) (s : Client) (t : String) (s' : Client)
    → accept_token p r s ≡ (ok t, s')
    → Holds p t s'
unfolding accept_token store_token
accept_token-Holds p r s t s' h = elim (Option-cases (offered_token r)) [
  | inl e ↦ absurd (ground arith)
  | inr (x, e) ↦ elim (Bool-cases (is_ok r)) [
    | inr bad ↦ absurd (ground arith)
    | inl good ↦
        let same : x ≡ t = ground arith in
        record {
          not_empty = offered_token_ne r t (e ∙ ap some same);
          cached = ground arith;
          fresh = ground arith;
        }
  ]
]

cached_token-Holds :
    (p : Platform) (force : Bool) (s : Client) (t : String)
    → cached_token p force s ≡ some t
    → Holds p t s
unfolding cached_token
cached_token-Holds p force s t h =
    let (fresh, kept) =
      test_passed (not force && ltb (p.clock s.sent) s.csrf_refresh_at) (truthy s.csrf_token) t h in
    let (not_empty, cached) = truthy_sound s.csrf_token t kept in
    record { not_empty = not_empty; cached = cached; fresh = ground arith }
  where
    test_passed :
        (b : Bool) (o : Option String) (x : String)
        → (if b then o else none) ≡ some x
        → (b ≡ true) × (o ≡ some x)
    test_passed b o x e = ground arith

cached_token_again :
    (p : Platform) (t : String) (s : Client) → Holds p t s → cached_token p false s ≡ some t
unfolding cached_token
cached_token_again p t s held =
    let kept = truthy-some t held.not_empty in
    let fresh = held.fresh in let cached = held.cached in rw cached (ground arith)

get_csrf_token-Holds :
    (p : Platform) (force : Bool) (s : Client) (t : String) (s' : Client)
    → get_csrf_token p force s ≡ (ok t, s')
    → Holds p t s'
unfolding get_csrf_token refresh_token
get_csrf_token-Holds p force s t s' h = elim (Option-cases (cached_token p force s)) [
  | inl e ↦
      let (r, u, asked, taken) = >>=-eq-ok (fetch_csrf p) _ s (rw (e, get_csrf_token) at h) in
      accept_token-Holds p r u t s' taken
  | inr (x, e) ↦
      let same : (ok x, s) ≡ (ok t, s') = rw (e, get_csrf_token) at h in
      let held = cached_token-Holds p force s x e in subst (λ r. Held p r) same held
]

-- A token that `getCsrfToken` returns is not empty, and the next call that does not force a refresh
-- returns the same token, with no request and no change.
get_csrf_token_again :
    (p : Platform) (force : Bool) (s : Client) (t : String) (s' : Client)
    → get_csrf_token p force s ≡ (ok t, s')
    → (t ≢ "") × (get_csrf_token p false s' ≡ (ok t, s'))
unfolding get_csrf_token
get_csrf_token_again p force s t s' h =
    let held = get_csrf_token-Holds p force s t s' h in
    (held.not_empty, rw (cached_token_again p t s' held, get_csrf_token) refl)
