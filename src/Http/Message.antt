-- ===== src/Http/Message.antt =====
-- Requests and responses as frontend/src/lib/backend/directClient.ts, request.ts and
-- frontend/src/lib/auth/localSession.ts see them. A payload has the fields that these files read.
-- `Headers` compares names without regard to case: names are kept in lower case here.
use text.Mathlib.Text.{find?}
use agent_workflow_fast_api.Base.{
  ℕ, String, Bool, true, false, ◌&&◌, List, [], ◌∷◌, Option, none, some, leb, ◌==◌, string_eq,
  if◌then◌else◌,
}
use agent_workflow_fast_api.Http.Urls.Mapping.{Address}

-- `detail` is absent, a plain text, a list of objects with `msg`, or an object with `message`.
pub data Detail : Type 0 where
  absent : Detail
  plain : String → Detail
  items : List (Option String) → Detail
  object : Option String → Detail

pub record LocalSessionUser : Type 0 where
  pub user_id : String
  pub email : Option String
  pub name : Option String
  pub image : Option String

pub record Payload : Type 0 where
  pub authenticated : Option Bool
  pub cause : Option String
  pub code : Option String
  pub csrf_token : Option String
  pub detail : Detail
  pub message : Option String
  pub request_id : Option String
  pub user : Option LocalSessionUser

-- The body's JSON is absent where it does not parse.
pub record Response : Type 0 where
  pub status : ℕ
  pub content_type : Option String
  pub json : Option Payload

-- `response.ok`
abbrev pub is_ok : Response → Bool
is_ok r = leb 200 r.status && leb r.status 299

-- `String.prototype.includes`
abbrev pub includes : String → String → Bool
includes s t = elim (find? s t) [ none ↦ false | some i ↦ true ]

abbrev pub Headers : Type 0
Headers = List (String × String)

unfoldable pub header_has : String → Headers → Bool
header_has name [] = false
header_has name ((k, v) ∷ rest) = if k == name then true else header_has name rest

unfoldable pub header_get : String → Headers → Option String
header_get name [] = none
header_get name ((k, v) ∷ rest) = if k == name then some v else header_get name rest

unfoldable pub header_set : String → String → Headers → Headers
header_set name value [] = (name, value) ∷ []
header_set name value ((k, v) ∷ rest) =
    if k == name then (k, value) ∷ rest else (k, v) ∷ header_set name value rest

-- The fields of the JSON object that is sent as the body.
abbrev pub Fields : Type 0
Fields = List (String × String)

pub record RequestInit : Type 0 where
  pub method : Option String
  pub headers : Option Headers
  pub credentials : Option String
  pub body : Option Fields

-- `RequestInfo | URL`: an address, or a `Request` object with a method, headers and body of its own.
pub data Input : Type 0 where
  url : Address → Input
  request : Address → String → Headers → Option Fields → Input

pub record Sent : Type 0 where
  pub method : String
  pub address : Address
  pub headers : Headers
  pub credentials : Option String
  pub body : Option Fields

-- What the network answers.
pub data Reply : Type 0 where
  unreachable : Reply
  answered : Response → Reply
