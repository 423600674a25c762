-- ===== src/Examples/Settings.antt =====
-- A page on which the access of an editor is changed to that of a viewer.
use agent_workflow_fast_api.Base.{
  String, true, false, [], ◌∷◌, none, some, ◌≡◌, ◌↔◌, refl, string_eq, contains,
}
use agent_workflow_fast_api.Permissions.Catalog.{
  editor, viewer, role_allows_permission, restricted_permissions_by_role,
  default_permissions_by_role,
}
use agent_workflow_fast_api.Settings.Members.{
  Member, MembersPage, active, have_same_permissions, selected_member, is_custom_role, change_role,
  toggle_permission,
}
use agent_workflow_fast_api.Settings.Same.{have_same_permissions_iff}
use agent_workflow_fast_api.Settings.Editing.{editing_marks_custom_role}

abbrev eve : Member
eve = record {
  effective_permissions = "chat.read" ∷ [];
  id = "m3";
  is_custom_role = true;
  role = editor;
  status = active;
  user_id = "eve";
}

abbrev members_page : MembersPage
members_page = record {
  members = some (eve ∷ []);
  defaults = some default_permissions_by_role;
  can_manage_members = true;
  invite_email = "";
  generated_invitation = none;
  candidate_id = "";
  selected_id = some "m3";
  role = editor;
  permissions = "chat.read" ∷ [];
  error = none;
  is_dirty = false;
  pending_member_id = none;
  toasts = [];
  invalidated = [];
}

editing_marks_custom_role_example :
    (is_custom_role (change_role viewer members_page) ≡ false)
    × (is_custom_role (toggle_permission "audit.read" (change_role viewer members_page)) ≡ true)
    × (is_custom_role (
          toggle_permission "audit.read"
            (toggle_permission "audit.read" (change_role viewer members_page)))
        ≡ false)
unfolding selected_member role_allows_permission restricted_permissions_by_role
editing_marks_custom_role_example =
    editing_marks_custom_role members_page eve default_permissions_by_role viewer "audit.read" refl
      refl refl refl

have_same_permissions_iff_example :
    (have_same_permissions ("a" ∷ "b" ∷ []) ("b" ∷ "a" ∷ "b" ∷ []) ≡ true) ↔ (
      (permission : String)
      → contains ("a" ∷ "b" ∷ []) permission ≡ contains ("b" ∷ "a" ∷ "b" ∷ []) permission)
have_same_permissions_iff_example =
    have_same_permissions_iff ("a" ∷ "b" ∷ []) ("b" ∷ "a" ∷ "b" ∷ [])
