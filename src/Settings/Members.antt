-- ===== src/Settings/Members.antt =====
-- frontend/src/components/settings/memberPermissions.tsx: the state of the page and its handlers. What the
-- backend answers to a change is an argument: a member, no member or the text of an error. The lists that
-- are read again after a change are noted.
use agent_workflow_fast_api.Base.{
  String, Bool, true, false, not, ◌&&◌, ◌||◌, List, [], ◌∷◌, ◌++◌, map, Option, none, some, ◌==◌,
  string_eq, number_eq, if◌then◌else◌, filter, find?, all, contains, set_of, length, get_or, head?,
  Result, ok, err,
}
use agent_workflow_fast_api.Http.Urls.Params.{truthy}
use agent_workflow_fast_api.Permissions.Catalog.{WorkspaceRole, role_allows_permission}

pub data MemberState : Type 0 where
  active suspended : MemberState

pub record Member : Type 0 where
  pub effective_permissions : List String
  pub id : String
  pub is_custom_role : Bool
  pub role : WorkspaceRole
  pub status : MemberState
  pub user_id : String

pub record InvitationResponse : Type 0 where
  pub invitation_id : String
  pub activation_url : Option String

-- The lists that the page reads from the backend.
pub data MemberList : Type 0 where
  members_list candidates_list invitations_list : MemberList

pub data SettingsToast : Type 0 where
  permissions_updated member_added invitation_created new_invitation_created : SettingsToast
  invitation_revoked member_restored member_suspended : SettingsToast
  refused_with : String → SettingsToast

-- `members` and `defaults` are the data of their queries; `toasts` and `invalidated` have the newest
-- first.
pub record MembersPage : Type 0 where
  pub members : Option (List Member)
  pub defaults : Option (WorkspaceRole → List String)
  pub can_manage_members : Bool
  pub invite_email : String
  pub generated_invitation : Option InvitationResponse
  pub candidate_id : String
  pub selected_id : Option String
  pub role : WorkspaceRole
  pub permissions : List String
  pub error : Option String
  pub is_dirty : Bool
  pub pending_member_id : Option String
  pub toasts : List SettingsToast
  pub invalidated : List MemberList

unfoldable pub have_same_permissions : List String → List String → Bool
have_same_permissions left right =
    length (set_of left) == length (set_of right)
    && all (λ permission. contains (set_of right) permission) (set_of left)

abbrev pub defaults_of : Option (WorkspaceRole → List String) → WorkspaceRole → List String
defaults_of none role = []
defaults_of (some defaults) role = defaults role

unfoldable pub get_default_permissions_for_role : MembersPage → WorkspaceRole → List String
get_default_permissions_for_role s role = defaults_of s.defaults role

abbrev pub has_id : Option String → Member → Bool
has_id none member = false
has_id (some id) member = member.id == id

unfoldable pub selected_member : MembersPage → Option Member
selected_member s = find? (has_id s.selected_id) (get_or s.members [])

abbrev pub has_catalog : Option (WorkspaceRole → List String) → Bool
has_catalog none = false
has_catalog (some defaults) = true

abbrev pub custom_for : MembersPage → Option Member → Bool
custom_for s none = false
custom_for s (some member) =
    if s.is_dirty && has_catalog s.defaults
    then not (have_same_permissions s.permissions (get_default_permissions_for_role s s.role))
    else member.is_custom_role

unfoldable pub is_custom_role : MembersPage → Bool
is_custom_role s = custom_for s (selected_member s)

-- The effects: a first selection, and the fields of a member that was selected.
abbrev pub id_of : Option Member → Option String
id_of none = none
id_of (some member) = some member.id

unfoldable pub select_first : MembersPage → MembersPage
select_first s = elim s.members [
  | none ↦ s
  | some members ↦ elim (truthy s.selected_id) [
    | some id ↦ s
    | none ↦ record s { selected_id = id_of (head? members) }
  ]
]

unfoldable pub on_selected_member : MembersPage → MembersPage
on_selected_member s = elim (selected_member s) [
  | none ↦ s
  | some member ↦ record s {
    role = member.role;
    permissions = member.effective_permissions;
    is_dirty = false;
  }
]

unfoldable pub select_member : String → MembersPage → MembersPage
select_member member_id s =
    if s.is_dirty
    then record s { pending_member_id = some member_id }
    else record s { selected_id = some member_id }

unfoldable pub discard_and_select_member : MembersPage → MembersPage
discard_and_select_member s = elim (truthy s.pending_member_id) [
  | none ↦ s
  | some id ↦ record s { is_dirty = false; selected_id = some id; pending_member_id = none }
]

unfoldable pub keep_editing : MembersPage → MembersPage
keep_editing s = record s { pending_member_id = none }

unfoldable pub change_role : WorkspaceRole → MembersPage → MembersPage
change_role next_role s =
    if not s.can_manage_members || not (has_catalog s.defaults) then s else record s {
      role = next_role;
      permissions = get_default_permissions_for_role s next_role;
      is_dirty = true;
    }

abbrev pub toggled : String → List String → List String
toggled permission current =
    if contains current permission
    then filter (λ item. not (item == permission)) current
    else current ++ (permission ∷ [])

unfoldable pub toggle_permission : String → MembersPage → MembersPage
toggle_permission permission s =
    if not s.can_manage_members
      || (not (has_catalog s.defaults) || not (role_allows_permission s.role permission))
    then s
    else record s { permissions = toggled permission s.permissions; is_dirty = true }

-- `setQueryData` of the members with a member that the backend gives back.
abbrev pub replace_member : Member → List Member → List Member
replace_member member = map (λ m. if m.id == member.id then member else m)

abbrev pub with_member : Option Member → Option (List Member) → Option (List Member)
with_member none members = members
with_member (some member) none = none
with_member (some member) (some members) = some (replace_member member members)

abbrev pub refused : String → MembersPage → MembersPage
refused message s = record s { error = some message; toasts = refused_with message ∷ s.toasts }

abbrev pub saved : Result String (Option Member) → MembersPage → MembersPage
saved (ok member) s = record s {
  members = with_member member s.members;
  is_dirty = false;
  toasts = permissions_updated ∷ s.toasts;
  error = none;
}
saved (err message) s = refused message s

unfoldable pub save : Result String (Option Member) → MembersPage → MembersPage
save answer s = elim (selected_member s) [
  | none ↦ s
  | some member ↦ if s.can_manage_members then saved answer s else s
]

abbrev pub selecting : Option Member → Option String → Option String
selecting none selected_id = selected_id
selecting (some member) selected_id = some member.id

abbrev pub added : Result String (Option Member) → MembersPage → MembersPage
added (ok member) s = record s {
  invalidated = candidates_list ∷ members_list ∷ s.invalidated;
  candidate_id = "";
  selected_id = selecting member s.selected_id;
  toasts = member_added ∷ s.toasts;
  error = none;
}
added (err message) s = refused message s

unfoldable pub add_member : Result String (Option Member) → MembersPage → MembersPage
add_member answer s =
    if s.candidate_id == "" || (not s.can_manage_members || not (has_catalog s.defaults))
    then s
    else added answer s

abbrev pub status_toast : MemberState → SettingsToast
status_toast active = member_suspended
status_toast suspended = member_restored

abbrev pub status_changed : Member → Result String (Option Member) → MembersPage → MembersPage
status_changed selected (ok member) s = record s {
  members = with_member member s.members;
  toasts = status_toast selected.status ∷ s.toasts;
  error = none;
}
status_changed selected (err message) s = refused message s

unfoldable pub change_member_status : Result String (Option Member) → MembersPage → MembersPage
change_member_status answer s = elim (selected_member s) [
  | none ↦ s
  | some member ↦ if s.can_manage_members then status_changed member answer s else s
]
