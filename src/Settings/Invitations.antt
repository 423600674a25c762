-- ===== src/Settings/Invitations.antt =====
-- frontend/src/components/settings/memberPermissions.tsx: inviting members. What the backend answers is an
-- argument.
use agent_workflow_fast_api.Base.{
  String, Bool, not, ◌||◌, ◌∷◌, Option, none, some, ◌==◌, string_eq, number_eq, if◌then◌else◌,
  Result, ok, err,
}
use agent_workflow_fast_api.Settings.Members.{
  MembersPage, InvitationResponse, invitation_created, new_invitation_created, invitation_revoked,
  invitations_list, refused,
}

abbrev pub invited : Result String InvitationResponse → MembersPage → MembersPage
invited (ok invitation) s = record s {
  generated_invitation = some invitation;
  invite_email = "";
  invalidated = invitations_list ∷ s.invalidated;
  toasts = invitation_created ∷ s.toasts;
  error = none;
}
invited (err message) s = refused message s

-- `trim` is a parameter.
unfoldable pub create_invitation :
    (String → String) → Result String InvitationResponse → MembersPage → MembersPage
create_invitation trim answer s =
    if trim s.invite_email == "" || not s.can_manage_members then s else invited answer s

abbrev pub regenerated : Result String InvitationResponse → MembersPage → MembersPage
regenerated (ok invitation) s = record s {
  generated_invitation = some invitation;
  invalidated = invitations_list ∷ s.invalidated;
  toasts = new_invitation_created ∷ s.toasts;
  error = none;
}
regenerated (err message) s = refused message s

unfoldable pub regenerate_invitation : Result String InvitationResponse → MembersPage → MembersPage
regenerate_invitation answer s = if s.can_manage_members then regenerated answer s else s

abbrev pub without_invitation : String → Option InvitationResponse → Option InvitationResponse
without_invitation id none = none
without_invitation id (some invitation) =
    if invitation.invitation_id == id then none else some invitation

abbrev pub revoked : String → Result String (Unit {0}) → MembersPage → MembersPage
revoked id (ok done) s = record s {
  generated_invitation = without_invitation id s.generated_invitation;
  invalidated = invitations_list ∷ s.invalidated;
  toasts = invitation_revoked ∷ s.toasts;
  error = none;
}
revoked id (err message) s = refused message s

-- The first argument is the answer of `window.confirm`.
unfoldable pub revoke_invitation :
    Bool → String → Result String (Unit {0}) → MembersPage → MembersPage
revoke_invitation confirmed invitation_id answer s =
    if not s.can_manage_members || not confirmed then s else revoked invitation_id answer s
