-- ===== src/Workspace/Roles.antt =====
-- frontend/src/lib/db/workspaceQueries.ts: `assertRole`, the reading of a role from its column.
use agent_workflow_fast_api.Base.{
  String, List, [], ◌∷◌, ◌≡◌, refl, arith, ◌==◌, ==_iff, string_eq, if◌then◌else◌, Bool, true,
  false, Result, ok, err,
}
use agent_workflow_fast_api.Permissions.Catalog.{
  WorkspaceRole, owner, admin, editor, employee, viewer,
}
use agent_workflow_fast_api.Workspace.Tables.{
  WorkspaceError, unsupported_role, MemberStatus, active, suspended,
}

unfoldable pub role_name : WorkspaceRole → String
role_name owner = "owner"
role_name admin = "admin"
role_name editor = "editor"
role_name employee = "employee"
role_name viewer = "viewer"

abbrev workspace_roles : List WorkspaceRole
workspace_roles = owner ∷ admin ∷ editor ∷ employee ∷ viewer ∷ []

role_among : String → List WorkspaceRole → Result WorkspaceError WorkspaceRole
role_among role [] = err (unsupported_role role)
role_among role (r ∷ rs) = if role_name r == role then ok r else role_among role rs

unfoldable pub assert_role : String → Result WorkspaceError WorkspaceRole
unfolding role_among role_name
assert_role role = role_among role workspace_roles

abbrev pub is_active : MemberStatus → Bool
is_active active = true
is_active suspended = false

pub assert_role-role_name : (r : WorkspaceRole) → assert_role (role_name r) ≡ ok r
unfolding assert_role
assert_role-role_name owner = refl
assert_role-role_name admin = refl
assert_role-role_name editor = refl
assert_role-role_name employee = refl
assert_role-role_name viewer = refl

role_among_sound :
    (s : String) (rs : List WorkspaceRole) (r : WorkspaceRole)
    → role_among s rs ≡ ok r
    → s ≡ role_name r
unfolding role_among
role_among_sound s [] r h = cc
role_among_sound s (q ∷ rs) r h = ground (arith, ==_iff (role_name q) s, role_among_sound s rs r)

-- The text of an accepted role is the role's name.
pub name_of_assert_role : (s : String) (r : WorkspaceRole) → assert_role s ≡ ok r → s ≡ role_name r
unfolding assert_role
name_of_assert_role s r h = role_among_sound s workspace_roles r h
