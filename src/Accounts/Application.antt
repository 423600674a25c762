-- ===== src/Accounts/Application.antt =====
-- frontend/src/lib/auth/applicationAuth.tsx: the status of the user in the application. The query for
-- the current user is a part of the state: its data, its error and whether it is loading.
use agent_workflow_fast_api.Base.{
  ℕ, String, Bool, true, false, not, ◌&&◌, List, ◌∷◌, Option, none, some, ◌==◌, string_eq,
  number_eq, leb, if◌then◌else◌, find?, contains,
}
use agent_workflow_fast_api.Http.Message.{Payload}
use agent_workflow_fast_api.Http.Requests.Backend.{BackendRequestError}
use agent_workflow_fast_api.Accounts.Session.{
  User, AuthSession, authenticated, loading, unauthenticated, invalidate, session_status,
}

pub data AccessState : Type 0 where
  ready pending_workspace : AccessState

pub data UserStatus : Type 0 where
  active suspended : UserStatus

pub record Membership : Type 0 where
  pub membership_id : String
  pub permissions : List String
  pub workspace_id : String

pub record CurrentUser : Type 0 where
  pub access_state : AccessState
  pub memberships : List Membership
  pub status : UserStatus
  pub user_id : String

pub data BlockedStatus : Type 0 where
  blocked_pending blocked_suspended : BlockedStatus

pub data ApplicationStatus : Type 0 where
  is_loading is_unauthenticated is_initializing is_pending_workspace : ApplicationStatus
  is_authenticated is_suspended is_error : ApplicationStatus

-- `removed` has the identities whose queries were removed, newest first.
pub record Application : Type 0 where
  pub session : AuthSession
  pub blocked_status : Option BlockedStatus
  pub previous_identity : Option String
  pub query_data : Option CurrentUser
  pub query_error : Option BackendRequestError
  pub query_is_loading : Bool
  pub removed : List String

abbrev pub code_of : Option Payload → Option String
code_of none = none
code_of (some payload) = payload.code

unfoldable pub error_code : Option BackendRequestError → Option String
error_code none = none
error_code (some e) = code_of e.payload

-- What the retry of a query sees: an error with a status, or another one.
pub data QueryError : Type 0 where
  status_error : ℕ → QueryError
  other_error : QueryError

unfoldable pub should_retry_current_user : ℕ → QueryError → Bool
should_retry_current_user failure_count (status_error status) =
    if leb 1 failure_count then false else leb 500 status
should_retry_current_user failure_count other_error = if leb 1 failure_count then false else true

abbrev pub identity_of : Option User → String
identity_of none = "anonymous"
identity_of (some u) = u.id

abbrev pub data_for : Option User → Option CurrentUser → Option CurrentUser
data_for none d = none
data_for (some u) d = d

unfoldable pub current_user : Application → Option CurrentUser
current_user a = data_for a.session.user a.query_data

abbrev pub membership_in : String → Option CurrentUser → Option Membership
membership_in workspace_id none = none
membership_in workspace_id (some user) =
    find? (λ membership. membership.workspace_id == workspace_id) user.memberships

unfoldable pub active_membership : String → Application → Option Membership
unfolding current_user
active_membership workspace_id a = membership_in workspace_id (current_user a)

abbrev pub leaves : Option String → String → List String → List String
leaves none identity removed = removed
leaves (some previous) identity removed =
    if not (previous == "") && (not (previous == "anonymous") && not (previous == identity))
    then previous ∷ removed
    else removed

-- The effect of a change of the identity, and of one of the current user.
unfoldable pub on_identity : Application → Application
on_identity a = record a {
  removed = leaves a.previous_identity (identity_of a.session.user) a.removed;
  previous_identity = some (identity_of a.session.user);
  blocked_status = none;
}

unfoldable pub on_current_user : Application → Application
unfolding current_user
on_current_user a = elim (current_user a) [
  | none ↦ a
  | some user ↦ record a { blocked_status = none }
]

abbrev pub code_is : String → Option String → Bool
code_is code none = false
code_is code (some c) = c == code

-- The handler of authorization failures.
module _ (encode : String → String) where
  unfoldable pub on_authorization_failure : BackendRequestError → Application → Application
  on_authorization_failure e a =
      if e.status == 401
      then record a { session = invalidate encode "session_expired" a.session }
      else if code_is "user:suspended" (code_of e.payload)
      then record a { blocked_status = some blocked_suspended }
      else if code_is "workspace:membership_required" (code_of e.payload)
      then record a { blocked_status = some blocked_pending }
      else a

abbrev pub blocked_as : BlockedStatus → ApplicationStatus
blocked_as blocked_pending = is_pending_workspace
blocked_as blocked_suspended = is_suspended

abbrev pub status_for : CurrentUser → ApplicationStatus
status_for user = elim user.status [
  | suspended ↦ is_suspended
  | active ↦ elim user.access_state [
    | pending_workspace ↦ is_pending_workspace
    | ready ↦ is_authenticated
  ]
]

abbrev pub status_by_user : Bool → Option CurrentUser → ApplicationStatus
status_by_user true user = is_initializing
status_by_user false none = is_initializing
status_by_user false (some user) = status_for user

abbrev pub status_by_error : BackendRequestError → ApplicationStatus
status_by_error e = if e.status == 401 then is_unauthenticated else is_error

abbrev pub status_by_query :
    Option BackendRequestError → Bool → Option CurrentUser → ApplicationStatus
status_by_query none loading_now user = status_by_user loading_now user
status_by_query (some e) loading_now user =
    if code_is "user:suspended" (code_of e.payload)
    then is_suspended
    else if code_is "workspace:membership_required" (code_of e.payload)
    then is_pending_workspace
    else status_by_error e

abbrev pub status_unless_blocked : Option BlockedStatus → ApplicationStatus → ApplicationStatus
status_unless_blocked none other = other
status_unless_blocked (some blocked) other = blocked_as blocked

unfoldable pub application_status : Application → ApplicationStatus
unfolding current_user
application_status a = elim (session_status a.session) [
  | loading ↦ is_loading
  | unauthenticated ↦ is_unauthenticated
  | authenticated ↦
      status_unless_blocked a.blocked_status
        (status_by_query a.query_error a.query_is_loading (current_user a))
]

abbrev pub membership_allows : String → Option Membership → Bool
membership_allows permission none = false
membership_allows permission (some membership) = contains membership.permissions permission

unfoldable pub has_permission_in : String → Application → String → Bool
unfolding active_membership
has_permission_in workspace_id a permission =
    membership_allows permission (active_membership workspace_id a)
