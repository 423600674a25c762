-- ===== src/Conversations/Responses.antt =====
-- frontend/src/lib/errors.ts: what the response to an error gives away.
use agent_workflow_fast_api.Base.{
  String, Option, none, some, ◌≡◌, ◌≢◌, refl, ap, arith, ◌⊎◌, inl, inr,
}
use agent_workflow_fast_api.Conversations.Errors.{
  ErrorType, Surface, database, ChatbotError, to_response, visibility_by_surface, response, log,
  shown, chat, auth, api, stream, history, document, suggestions, activate_gateway,
}

on_database : (s : Surface) → (s ≡ database) ⊎ (visibility_by_surface s ≡ response)
unfolding visibility_by_surface
on_database database = inl refl
on_database chat = inr refl
on_database auth = inr refl
on_database api = inr refl
on_database stream = inr refl
on_database history = inr refl
on_database document = inr refl
on_database suggestions = inr refl
on_database activate_gateway = inr refl

told :
    (e f : ChatbotError) (request_id : Option String)
    → e.surface ≢ database
    → to_response e request_id ≡ to_response f request_id
    → e ≡ f
unfolding to_response visibility_by_surface
told e f request_id n h = elim (on_database e.surface) [
  | inl a ↦ absurd (n a)
  | inr a ↦ elim (on_database f.surface) [
    | inl b ↦
        let hidden : visibility_by_surface f.surface ≡ log = ap visibility_by_surface b in
        absurd (some_ne_none (ap (λ r. r.code) (rw (a, hidden, to_response) at h)))
    | inr b ↦
        let same : shown response e request_id ≡ shown response f request_id =
          rw (a, b, to_response) at h in
        let code = ap (λ r. r.code) same in
        let cause = ap (λ r. r.cause) same in parts e f code cause
  ]
]
  where
    parts :
        (e f : ChatbotError)
        → ◌≡◌ {A = Option (ErrorType × Surface)}
            (some (e.type, e.surface))
            (some (f.type, f.surface))
        → e.cause ≡ f.cause
        → e ≡ f
    parts e f c d = ground (arith, c, d)

    some_ne_none : {A : Type 0} {a : A} → ◌≢◌ {A = Option A} (some a) none
    some_ne_none h = cc

-- Two database errors of the same type have the same response, whatever caused them; an error of any
-- other surface can be told from its response.
to_response_lem :
    (e f : ChatbotError) (request_id : Option String)
    → (e.surface ≡ database
        → f.surface ≡ database
        → e.type ≡ f.type
        → to_response e request_id ≡ to_response f request_id)
      × (e.surface ≢ database → to_response e request_id ≡ to_response f request_id → e ≡ f)
unfolding to_response visibility_by_surface
to_response_lem e f request_id = (λ a b c. rw (a, b, c) refl, told e f request_id)
