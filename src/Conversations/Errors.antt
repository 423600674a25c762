-- ===== src/Conversations/Errors.antt =====
-- frontend/src/lib/errors.ts: the codes of `ChatbotError`, and what its response shows. A code is its
-- type and its surface.
pub mod Codes
use agent_workflow_fast_api.Base.{ℕ, String, Option, none, some}
use agent_workflow_fast_api.Http.Urls.Params.{truthy}

pub data ErrorType : Type 0 where
  bad_request unauthorized forbidden not_found rate_limit offline : ErrorType

pub data Surface : Type 0 where
  chat auth api stream database history document suggestions activate_gateway : Surface

pub data ErrorVisibility : Type 0 where
  response log none_shown : ErrorVisibility

unfoldable pub visibility_by_surface : Surface → ErrorVisibility
visibility_by_surface database = log
visibility_by_surface _ = response

abbrev pub default_error_message : String
default_error_message = "Something went wrong. Please try again later."

unfoldable pub get_message_by_error_code : ErrorType → Surface → String
get_message_by_error_code _ database = "An error occurred while executing a database query."
get_message_by_error_code bad_request api =
    "The request couldn't be processed. Please check your input and try again."
get_message_by_error_code bad_request activate_gateway =
    "AI Gateway requires a valid credit card on file to service requests. Please visit https://vercel.com/d?to=%2F%5Bteam%5D%2F%7E%2Fai%3Fmodal%3Dadd-credit-card to add a card and unlock your free credits."
get_message_by_error_code unauthorized auth = "You need to sign in before continuing."
get_message_by_error_code forbidden auth = "Your account does not have access to this feature."
get_message_by_error_code rate_limit chat =
    "You've reached the message limit. Come back in 1 hour to continue chatting."
get_message_by_error_code not_found chat =
    "The requested chat was not found. Please check the chat ID and try again."
get_message_by_error_code forbidden chat =
    "This chat belongs to another user. Please check the chat ID and try again."
get_message_by_error_code unauthorized chat =
    "You need to sign in to view this chat. Please sign in and try again."
get_message_by_error_code offline chat =
    "We're having trouble sending your message. Please check your internet connection and try again."
get_message_by_error_code not_found document =
    "The requested document was not found. Please check the document ID and try again."
get_message_by_error_code forbidden document =
    "This document belongs to another user. Please check the document ID and try again."
get_message_by_error_code unauthorized document =
    "You need to sign in to view this document. Please sign in and try again."
get_message_by_error_code bad_request document =
    "The request to create or update the document was invalid. Please check your input and try again."
get_message_by_error_code _ _ = default_error_message

unfoldable pub get_status_code_by_type : ErrorType → ℕ
get_status_code_by_type bad_request = 400
get_status_code_by_type unauthorized = 401
get_status_code_by_type forbidden = 403
get_status_code_by_type not_found = 404
get_status_code_by_type rate_limit = 429
get_status_code_by_type offline = 503

-- A cause that is a text; an error object that caused this one is not sent.
pub record ChatbotError : Type 0 where
  pub type : ErrorType
  pub surface : Surface
  pub cause : Option String

-- The JSON body with its status; no code stands for the empty one.
pub record ErrorResponse : Type 0 where
  pub status : ℕ
  pub code : Option (ErrorType × Surface)
  pub cause : Option String
  pub message : String
  pub request_id : Option String

abbrev pub shown : ErrorVisibility → ChatbotError → Option String → ErrorResponse
shown log e request_id = record {
  status = get_status_code_by_type e.type;
  code = none;
  cause = none;
  message = default_error_message;
  request_id = truthy request_id;
}
shown _ e request_id = record {
  status = get_status_code_by_type e.type;
  code = some (e.type, e.surface);
  cause = e.cause;
  message = get_message_by_error_code e.type e.surface;
  request_id = truthy request_id;
}

unfoldable pub to_response : ChatbotError → Option String → ErrorResponse
to_response e = shown (visibility_by_surface e.surface) e
