-- ===== src/Http/Client/Refresh.antt =====
-- frontend/src/lib/auth/localSession.ts: `getCsrfToken` while calls overlap. A step is a call, the end
-- of a request for a token, the `finally` of the call that sent it, or an invalidation; a promise is a
-- number.
use agent_workflow_fast_api.Base.{
  ℕ, suc, ◌+◌, ◌-◌, String, Bool, true, false, not, ◌&&◌, List, [], ◌∷◌, Option, none, some, ◌≡◌,
  arith, ◌==◌, ==_iff, ==-refl, number_eq, ltb, some_is, if◌then◌else◌, filter, contains,
  Bool-cases, Option-cases, inl, inr,
}
use agent_workflow_fast_api.Http.Urls.Params.{truthy}
use agent_workflow_fast_api.Http.Client.Token.{csrf_token_max_age_ms, csrf_refresh_margin_ms}

-- `csrfToken`, `csrfRefreshAt` and `csrfRefreshPromise`, the requests that are under way, and those
-- that ended and whose caller has not gone on yet.
pub record Refresh : Type 0 where
  pub csrf_token : Option String
  pub csrf_refresh_at : ℕ
  pub csrf_refresh_promise : Option ℕ
  pub running : List ℕ
  pub ended : List ℕ
  pub next : ℕ

unfoldable pub start : Refresh → Refresh
start s = record s {
  csrf_refresh_promise = some s.next;
  running = s.next ∷ s.running;
  next = suc s.next;
}

-- `if (!force && csrfToken && Date.now() < csrfRefreshAt)`
abbrev pub is_fresh : Bool → ℕ → Refresh → Bool
is_fresh force now s =
    not force
    && (ltb now s.csrf_refresh_at && elim (truthy s.csrf_token) [ none ↦ false | some t ↦ true ])

unfoldable pub call : Bool → ℕ → Refresh → Refresh
unfolding start
call force now s =
    if is_fresh force now s then s else elim s.csrf_refresh_promise [ none ↦ start s | some i ↦ s ]

abbrev pub without : ℕ → List ℕ → List ℕ
without i = filter (λ j. not (j == i))

-- The request of a promise ends without a token.
unfoldable pub refuse_promise : ℕ → Refresh → Refresh
refuse_promise i s = record s { running = without i s.running; ended = i ∷ s.ended }

unfoldable pub accept_promise : ℕ → String → ℕ → Refresh → Refresh
accept_promise i token now s = record s {
  csrf_token = some token;
  csrf_refresh_at = (now + csrf_token_max_age_ms) - csrf_refresh_margin_ms;
  running = without i s.running;
  ended = i ∷ s.ended;
}

-- `finally { if (csrfRefreshPromise === refreshPromise) csrfRefreshPromise = null; }`
unfoldable pub finish_promise : ℕ → Refresh → Refresh
finish_promise i s = record s {
  csrf_refresh_promise = if some_is s.csrf_refresh_promise i then none else s.csrf_refresh_promise;
  ended = without i s.ended;
}

unfoldable pub forget : Refresh → Refresh
forget s = record s { csrf_token = none; csrf_refresh_at = 0 }

pub data Step : Refresh → Refresh → Type 0 where
  called : (force : Bool) (now : ℕ) (s : Refresh) → Step s (call force now s)
  accepted :
      (i : ℕ) (token : String) (now : ℕ) (s : Refresh)
      → contains s.running i ≡ true
      → Step s (accept_promise i token now s)
  refused : (i : ℕ) (s : Refresh) → contains s.running i ≡ true → Step s (refuse_promise i s)
  finished : (i : ℕ) (s : Refresh) → contains s.ended i ≡ true → Step s (finish_promise i s)
  forgotten : (s : Refresh) → Step s (forget s)

abbrev pub loaded : Refresh
loaded = record {
  csrf_token = none;
  csrf_refresh_at = 0;
  csrf_refresh_promise = none;
  running = [];
  ended = [];
  next = 0;
}

-- What follows from loading the module.
pub data Reachable : Refresh → Type 0 where
  begin : Reachable loaded
  step : {s t : Refresh} → Reachable s → Step s t → Reachable t

-- No promise is kept and none is under way, or the one that is kept is under way or has just ended.
pub data Shape : Option ℕ → List ℕ → List ℕ → Type 0 where
  idle : Shape none [] []
  sent : (i : ℕ) → Shape (some i) (i ∷ []) []
  over : (i : ℕ) → Shape (some i) [] (i ∷ [])

Shape-ended :
    {o : Option ℕ} {run done : List ℕ} (i : ℕ)
    → Shape o run done
    → contains run i ≡ true
    → Shape o (without i run) (i ∷ done)
Shape-ended i idle k = absurd (ground arith)
Shape-ended i (sent p) k =
    let same : p ≡ i = ground (arith, ==_iff p i) in rw (same, ==-refl i) (over i)
Shape-ended i (over p) k = absurd (ground arith)

Shape-finished :
    {o : Option ℕ} {run done : List ℕ} (i : ℕ)
    → Shape o run done
    → contains done i ≡ true
    → Shape (if some_is o i then none else o) run (without i done)
unfolding some_is
Shape-finished i idle k = absurd (ground arith)
Shape-finished i (sent p) k = absurd (ground arith)
Shape-finished i (over p) k =
    let same : p ≡ i = ground (arith, ==_iff p i) in rw (same, ==-refl i) idle

abbrev pub IsSingle : Refresh → Type 0
IsSingle s = Shape s.csrf_refresh_promise s.running s.ended

Shape-started :
    {o : Option ℕ} {run done : List ℕ} (n : ℕ)
    → Shape o run done
    → o ≡ none
    → Shape (some n) (n ∷ run) done
Shape-started n idle e = sent n
Shape-started n (sent p) e = cc
Shape-started n (over p) e = cc

call-IsSingle : (force : Bool) (now : ℕ) (s : Refresh) → IsSingle s → IsSingle (call force now s)
unfolding call start
call-IsSingle force now s h = elim (Bool-cases (is_fresh force now s)) [
  | inl e ↦ rw e h
  | inr e ↦ elim (Option-cases s.csrf_refresh_promise) [
    | inl o ↦ rw (e, o) (Shape-started s.next h o)
    | inr (i, o) ↦ rw (e, o) h
  ]
]

Step-IsSingle : {s t : Refresh} → IsSingle s → Step s t → IsSingle t
unfolding accept_promise refuse_promise finish_promise forget
Step-IsSingle h (called force now s) = call-IsSingle force now s h
Step-IsSingle h (accepted i token now s k) = Shape-ended i h k
Step-IsSingle h (refused i s k) = Shape-ended i h k
Step-IsSingle h (finished i s k) = Shape-finished i h k
Step-IsSingle h (forgotten s) = h

-- However calls, answers, their ends and invalidations interleave, at most one request for a token is
-- under way; if one is, its promise is the one that later calls find; and a promise that is kept is
-- under way, or has ended and its caller is about to drop it.
pub Reachable-IsSingle : {s : Refresh} → Reachable s → IsSingle s
Reachable-IsSingle begin = idle
Reachable-IsSingle (step r k) = Step-IsSingle (Reachable-IsSingle r) k
