-- ===== src/Conversations/Errors/Codes.antt =====
-- frontend/src/lib/errors.ts: `ChatbotError` from the text of a code, which may be any text where a
-- response brings it. `raised_error` on the text of a code ties the texts to the codes of Errors.
use Prim.Native.Char.{code}
use Prim.Native.String
use agent_workflow_fast_api.Base.{
  ℕ, String, Bool, true, ◌&&◌, List, [], ◌∷◌, Option, none, some, ◌≡◌, refl, ap, arith, ◌==◌,
  eq_of_==, string_eq, number_eq, some_is, if◌then◌else◌, all,
}
use agent_workflow_fast_api.Http.Message.{includes}
use agent_workflow_fast_api.Conversations.Errors.{
  ErrorType, bad_request, unauthorized, forbidden, not_found, rate_limit, offline, Surface, chat,
  auth, api, stream, database, history, document, suggestions, activate_gateway,
  default_error_message, get_message_by_error_code, get_status_code_by_type,
}

abbrev pub error_type_name : ErrorType → String
error_type_name bad_request = "bad_request"
error_type_name unauthorized = "unauthorized"
error_type_name forbidden = "forbidden"
error_type_name not_found = "not_found"
error_type_name rate_limit = "rate_limit"
error_type_name offline = "offline"

abbrev pub surface_name : Surface → String
surface_name chat = "chat"
surface_name auth = "auth"
surface_name api = "api"
surface_name stream = "stream"
surface_name database = "database"
surface_name history = "history"
surface_name document = "document"
surface_name suggestions = "suggestions"
surface_name activate_gateway = "activate_gateway"

-- `${this.type}:${this.surface}`
abbrev pub code_text : ErrorType → Surface → String
code_text type surface = String.◌++◌ (error_type_name type) (String.◌++◌ ":" (surface_name surface))

abbrev split_onto : String → List String → List String
split_onto c [] = c ∷ []
split_onto c (part ∷ parts) = String.◌++◌ c part ∷ parts

-- `errorCode.split(":")`
unfoldable pub split_code : String → List String
split_code String.[] = "" ∷ []
split_code (String.◌∷◌ c s) =
    let parts = split_code s in
    if code c == b':' then "" ∷ parts else split_onto (String.◌∷◌ c "") parts

abbrev second : List String → Option String
second (a ∷ b ∷ parts) = some b
second _ = none

-- The cases of the `switch`.
abbrev message_cases : List (String × String)
message_cases =
    ("bad_request:api", get_message_by_error_code bad_request api)
    ∷ ("bad_request:activate_gateway", get_message_by_error_code bad_request activate_gateway)
    ∷ ("unauthorized:auth", get_message_by_error_code unauthorized auth)
    ∷ ("forbidden:auth", get_message_by_error_code forbidden auth)
    ∷ ("rate_limit:chat", get_message_by_error_code rate_limit chat)
    ∷ ("not_found:chat", get_message_by_error_code not_found chat)
    ∷ ("forbidden:chat", get_message_by_error_code forbidden chat)
    ∷ ("unauthorized:chat", get_message_by_error_code unauthorized chat)
    ∷ ("offline:chat", get_message_by_error_code offline chat)
    ∷ ("not_found:document", get_message_by_error_code not_found document)
    ∷ ("forbidden:document", get_message_by_error_code forbidden document)
    ∷ ("unauthorized:document", get_message_by_error_code unauthorized document)
    ∷ ("bad_request:document", get_message_by_error_code bad_request document)
    ∷ []

abbrev message_among : String → List (String × String) → String
message_among text [] = default_error_message
message_among text ((case_text, message) ∷ rest) =
    if text == case_text then message else message_among text rest

unfoldable pub message_of_code : String → String
message_of_code text =
    if includes text "database"
    then get_message_by_error_code bad_request database
    else message_among text message_cases

unfoldable pub status_of_type : String → ℕ
status_of_type type =
    if type == "bad_request"
    then 400
    else if type == "unauthorized"
    then 401
    else if type == "forbidden"
    then 403
    else if type == "not_found"
    then 404
    else if type == "rate_limit"
    then 429
    else if type == "offline"
    then 503
    else 500

-- A `ChatbotError` as it is made from the text of a code and a cause that is a text.
pub record RaisedError : Type 0 where
  pub type : String
  pub surface : Option String
  pub message : String
  pub cause : Option String
  pub status_code : ℕ
  pub request_id : Option String

abbrev first_or : List String → String
first_or [] = ""
first_or (part ∷ parts) = part

unfoldable pub raised_error : String → Option String → Option String → RaisedError
unfolding split_code message_of_code status_of_type
raised_error text cause request_id = record {
  type = first_or (split_code text);
  surface = second (split_code text);
  message = message_of_code text;
  cause = cause;
  status_code = status_of_type (first_or (split_code text));
  request_id = request_id;
}

-- The error of a code of the union `ErrorCode`.
abbrev pub error_of : ErrorType → Surface → Option String → Option String → RaisedError
error_of type surface cause request_id = record {
  type = error_type_name type;
  surface = some (surface_name surface);
  message = get_message_by_error_code type surface;
  cause = cause;
  status_code = get_status_code_by_type type;
  request_id = request_id;
}

-- Whether the two agree on a code.
agrees : ErrorType → Surface → Bool
unfolding raised_error get_message_by_error_code get_status_code_by_type some_is
agrees type surface =
    let e = raised_error (code_text type surface) none none in
    e.type == error_type_name type
    && (some_is e.surface (surface_name surface)
        && (e.message == get_message_by_error_code type surface
            && (e.status_code == get_status_code_by_type type)))

abbrev all_types : List ErrorType
all_types = bad_request ∷ unauthorized ∷ forbidden ∷ not_found ∷ rate_limit ∷ offline ∷ []

abbrev all_surfaces : List Surface
all_surfaces =
    chat ∷ auth ∷ api ∷ stream ∷ database ∷ history ∷ document ∷ suggestions ∷ activate_gateway ∷ []

all_agree : all (λ t. all (agrees t) all_surfaces) all_types ≡ true
unfolding agrees
all_agree = refl

types_hold : (f : ErrorType → Bool) → all f all_types ≡ true → (t : ErrorType) → f t ≡ true
types_hold f h bad_request = ground arith
types_hold f h unauthorized = ground arith
types_hold f h forbidden = ground arith
types_hold f h not_found = ground arith
types_hold f h rate_limit = ground arith
types_hold f h offline = ground arith

surfaces_hold : (f : Surface → Bool) → all f all_surfaces ≡ true → (s : Surface) → f s ≡ true
surfaces_hold f h chat = ground arith
surfaces_hold f h auth = ground arith
surfaces_hold f h api = ground arith
surfaces_hold f h stream = ground arith
surfaces_hold f h database = ground arith
surfaces_hold f h history = ground arith
surfaces_hold f h document = ground arith
surfaces_hold f h suggestions = ground arith
surfaces_hold f h activate_gateway = ground arith

agrees_always : (t : ErrorType) (s : Surface) → agrees t s ≡ true
agrees_always t s =
    surfaces_hold (agrees t) (types_hold (λ t. all (agrees t) all_surfaces) all_agree t) s

some_is_sound : (o : Option String) (s : String) → some_is o s ≡ true → o ≡ some s
unfolding some_is
some_is_sound none s h = cc
some_is_sound (some t) s h = ap some (eq_of_== t s h)

and_parts : (a b : Bool) → (a && b) ≡ true → (a ≡ true) × (b ≡ true)
and_parts a b h = ground arith

-- From the text of a code the constructor makes the error of that code.
pub raised_error-code_text :
    (type : ErrorType) (surface : Surface) (cause request_id : Option String)
    → raised_error (code_text type surface) cause request_id
      ≡ error_of type surface cause request_id
unfolding raised_error agrees
raised_error-code_text type surface cause request_id =
    let e = raised_error (code_text type surface) none none in
    let (same_type, more) = and_parts _ _ (agrees_always type surface) in
    let (same_surface, rest) = and_parts _ _ more in
    let (same_message, same_status) = and_parts _ _ rest in
    rw
      (
        eq_of_== e.status_code (get_status_code_by_type type) same_status,
        some_is_sound e.surface (surface_name surface) same_surface,
        eq_of_== e.message (get_message_by_error_code type surface) same_message,
        eq_of_== e.type (error_type_name type) same_type,
      )
      refl
