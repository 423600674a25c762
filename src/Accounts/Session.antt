-- ===== src/Accounts/Session.antt =====
-- frontend/src/lib/auth.tsx: the session that the browser holds, over the calls of localSession.ts. A
-- change of the page is noted; the listeners of the event for a change are not called here.
use Prim.Native.String
use mathlib.Core.Option
use agent_workflow_fast_api.Base.{
  String, Bool, true, List, ◌∷◌, Option, none, some, if◌then◌else◌, Result, ok, err,
}
use agent_workflow_fast_api.Http.Message.{LocalSessionUser}
use agent_workflow_fast_api.Http.Client.Fetch.{Platform, Client, ApiError}
use agent_workflow_fast_api.Http.Session.Calls.{
  LocalSessionResponse, get_local_session, sign_out_local_session,
}

pub record User : Type 0 where
  pub email : Option String
  pub id : String
  pub image : Option String
  pub name : Option String

-- `locations` has the pages that `location.assign` was called with, newest first.
pub record AuthSession : Type 0 where
  pub user : Option User
  pub is_ready : Bool
  pub locations : List String
  pub client : Client

pub data SessionStatus : Type 0 where
  authenticated loading unauthenticated : SessionStatus

abbrev pub user_of : LocalSessionUser → User
user_of u = record { email = u.email; id = u.user_id; image = u.image; name = u.name }

unfoldable pub session_to_context : LocalSessionResponse → Option User
session_to_context session = if session.authenticated then Option.map user_of session.user else none

abbrev pub refreshed_by : Result ApiError LocalSessionResponse × Client → AuthSession → AuthSession
refreshed_by (ok session, client) s = record s {
  user = session_to_context session;
  is_ready = true;
  client = client;
}
refreshed_by (err e, client) s = record s { user = none; is_ready = true; client = client }

unfoldable pub refresh_session : Platform → AuthSession → AuthSession
refresh_session p s = refreshed_by (get_local_session p s.client) s

-- The same with the session as its result.
unfoldable pub update : Platform → AuthSession → Option User × AuthSession
update p s = let after = refreshed_by (get_local_session p s.client) s in (after.user, after)

abbrev pub signed_out : Result ApiError (Unit {0}) × Client → AuthSession → AuthSession
signed_out (r, client) s = record s {
  user = none;
  is_ready = true;
  locations = "/login?reason=signed_out" ∷ s.locations;
  client = client;
}

-- `try … finally`: a failure of the call is passed on.
unfoldable pub sign_out : Platform → AuthSession → Result ApiError (Unit {0}) × AuthSession
sign_out p s = let done = sign_out_local_session p s.client in (done.0, signed_out done s)

module _ (encode : String → String) where
  unfoldable pub invalidate : String → AuthSession → AuthSession
  invalidate reason s = record s {
    user = none;
    is_ready = true;
    locations = String.◌++◌ "/login?reason=" (encode reason) ∷ s.locations;
  }

unfoldable pub session_status : AuthSession → SessionStatus
session_status s = elim s.user [
  | some u ↦ authenticated
  | none ↦ if s.is_ready then unauthenticated else loading
]
