-- ===== src/Workspace/Membership.antt =====
-- frontend/src/lib/db/workspaceQueries.ts: reading memberships, and joining the default workspace. In
-- mock mode (`isMockDatabase`) no table is touched. Generated ids and the time are arguments.
use mathlib.Core.Option
use agent_workflow_fast_api.Base.{
  ℕ, String, Bool, true, false, ◌&&◌, List, [], ◌∷◌, ◌++◌, map, Option, none, some, ◌==◌, string_eq,
  if◌then◌else◌, filter, find?, any, head?, contains, Result, ok, err, Io,
}
use agent_workflow_fast_api.Database.Engine.{Engine}
use agent_workflow_fast_api.Permissions.Catalog.{WorkspaceRole}
use agent_workflow_fast_api.Permissions.Effective.{PermissionOverride, get_effective_permissions}
use agent_workflow_fast_api.Workspace.Tables.{
  Db, UserRow, WorkspaceRow, WorkspaceMember, WorkspaceMemberPermission, WorkspaceError,
  MemberStatus, active,
}
use agent_workflow_fast_api.Workspace.Roles.{assert_role, role_name, is_active}

abbrev pub default_workspace_id : String
default_workspace_id = "00000000-0000-0000-0000-000000000001"

-- A member with the columns of the joined user and workspace.
pub record JoinedMember : Type 0 where
  pub member : WorkspaceMember
  pub email : String
  pub name : Option String
  pub workspace_name : String

pub record WorkspaceMembership : Type 0 where
  pub id : String
  pub role : String
  pub status : MemberStatus
  pub user_id : String
  pub workspace_id : String
  pub workspace_name : String
  pub overrides : List PermissionOverride

pub record WorkspaceMemberView : Type 0 where
  pub joined : JoinedMember
  pub effective_permissions : List String
  pub overrides : List PermissionOverride

abbrev pub to_override : WorkspaceMemberPermission → PermissionOverride
to_override row = record { effect = row.effect; permission = row.permission }

unfoldable pub get_permission_overrides : Db → String → List PermissionOverride
get_permission_overrides db member_id =
    map to_override (filter (λ row. row.member_id == member_id) db.member_permissions)

-- The inner join of a member with its user and its workspace, both found by primary key.
unfoldable pub join_user : Db → WorkspaceMember → UserRow → Option JoinedMember
join_user db m u = elim (find? (λ w. w.id == m.workspace_id) db.workspaces) [
  | none ↦ none
  | some w ↦ some (record { member = m; email = u.email; name = u.name; workspace_name = w.name })
]

unfoldable pub join_member : Db → WorkspaceMember → Option JoinedMember
join_member db m = elim (find? (λ u. u.id == m.user_id) db.users) [
  | none ↦ none
  | some u ↦ join_user db m u
]

unfoldable pub join_members : Db → List WorkspaceMember → List JoinedMember
join_members db [] = []
join_members db (m ∷ ms) = elim (join_member db m) [
  | none ↦ join_members db ms
  | some row ↦ row ∷ join_members db ms
]

-- The inner join of members with their workspaces.
unfoldable pub join_workspaces : Db → List WorkspaceMember → List (WorkspaceMember × WorkspaceRow)
join_workspaces db [] = []
join_workspaces db (m ∷ ms) = elim (find? (λ w. w.id == m.workspace_id) db.workspaces) [
  | none ↦ join_workspaces db ms
  | some w ↦ (m, w) ∷ join_workspaces db ms
]

unfoldable pub membership_of : Db → WorkspaceMember × WorkspaceRow → WorkspaceMembership
membership_of db (m, w) = record {
  id = m.id;
  role = m.role;
  status = m.status;
  user_id = m.user_id;
  workspace_id = m.workspace_id;
  workspace_name = w.name;
  overrides = get_permission_overrides db m.id;
}

abbrev pub mock_membership : String → WorkspaceMembership
mock_membership user_id = record {
  id = "mock-membership";
  role = "owner";
  status = active;
  user_id = user_id;
  workspace_id = default_workspace_id;
  workspace_name = "pallas Default Workspace";
  overrides = [];
}

-- `onConflictDoNothing` on the unique index over workspace and user.
unfoldable pub ensure_default_workspace_membership :
    Bool → String → ℕ → String → WorkspaceRole → Io Db WorkspaceError (Option WorkspaceMember)
ensure_default_workspace_membership true new_id now user_id role db = (ok none, db)
ensure_default_workspace_membership false new_id now user_id role db =
    if any (λ m. m.workspace_id == default_workspace_id && m.user_id == user_id) db.members
    then (ok none, db)
    else (ok (some row), record db { members = db.members ++ (row ∷ []) })
  where
    row : WorkspaceMember
    row = record {
      id = new_id;
      created_at = now;
      role = role_name role;
      status = active;
      user_id = user_id;
      workspace_id = default_workspace_id;
    }

-- `overrides.filter(({ memberId }) => memberId === member.id)` over the rows that were selected.
unfoldable pub member_view :
    List WorkspaceMemberPermission → JoinedMember → Result WorkspaceError WorkspaceMemberView
member_view rows joined = elim (assert_role joined.member.role) [
  | err e ↦ err e
  | ok role ↦ ok (record {
    joined = joined;
    effective_permissions = get_effective_permissions role overrides false;
    overrides = overrides;
  })
]
  where
    overrides : List PermissionOverride
    overrides = map to_override (filter (λ row. row.member_id == joined.member.id) rows)

unfoldable pub member_views :
    List WorkspaceMemberPermission
    → List JoinedMember
    → Result WorkspaceError (List WorkspaceMemberView)
member_views rows [] = ok []
member_views rows (m ∷ ms) = elim (member_view rows m) [
  | err e ↦ err e
  | ok v ↦ elim (member_views rows ms) [ err e ↦ err e | ok vs ↦ ok (v ∷ vs) ]
]

-- The overrides of all the members, in one query, or none if there is no member.
unfoldable pub select_overrides : Db → List String → List WorkspaceMemberPermission
select_overrides db [] = []
select_overrides db (id ∷ ids) =
    filter (λ row. contains (id ∷ ids) row.member_id) db.member_permissions

module _ (engine : Engine) where
  -- The oldest active membership of the user, with its overrides.
  unfoldable pub get_workspace_membership_for_user : Bool → String → Db → Option WorkspaceMembership
  get_workspace_membership_for_user true user_id db = some (mock_membership user_id)
  get_workspace_membership_for_user false user_id db = Option.map (membership_of db) (
      head? (
        engine.asc (WorkspaceMember × WorkspaceRow) (λ row. row.0.created_at)
          (join_workspaces db
            (filter (λ m. m.user_id == user_id && is_active m.status) db.members))))

  unfoldable pub joined_members : String → Db → List JoinedMember
  joined_members workspace_id db =
      engine.asc JoinedMember (λ row. row.member.created_at)
        (join_members db (filter (λ m. m.workspace_id == workspace_id) db.members))

  unfoldable pub list_workspace_members :
      Bool → String → Db → Result WorkspaceError (List WorkspaceMemberView)
  list_workspace_members true workspace_id db = ok []
  list_workspace_members false workspace_id db =
      let members = joined_members workspace_id db in
      member_views (select_overrides db (map (λ row. row.member.id) members)) members
