-- ===== src/Workspace/Access/Update.antt =====
-- frontend/src/lib/db/workspaceQueries.ts: `updateWorkspaceMemberAccess`. A transaction that throws
-- leaves the tables as they were.
use agent_workflow_fast_api.Base.{
  ℕ, String, Bool, true, false, not, ◌&&◌, ◌||◌, List, [], ◌∷◌, ◌++◌, map, Option, none, some, ◌==◌,
  string_eq, if◌then◌else◌, filter, find?, length, leb, contains, distinct, set_of, Result, ok, err,
  Io, resolve, throw, ◌>>=◌, ◌>>◌,
}
use agent_workflow_fast_api.Database.Engine.{Engine}
use agent_workflow_fast_api.Permissions.Catalog.{
  WorkspaceRole, owner, admin, default_permissions_by_role,
}
use agent_workflow_fast_api.Permissions.Effective.{PermissionOverride, grant, deny}
use agent_workflow_fast_api.Workspace.Tables.{
  Db, WorkspaceMember, WorkspaceMemberPermission, AuditLog, WorkspaceError, needs_database,
  member_not_found, owner_edited_by_other, owner_granted_by_other, own_access_removed, last_owner,
  unique_violation,
}
use agent_workflow_fast_api.Workspace.Roles.{assert_role, role_name, is_active}
use agent_workflow_fast_api.Workspace.Membership.{WorkspaceMemberView, list_workspace_members}

pub record AccessChange : Type 0 where
  pub actor_user_id : String
  pub member_id : String
  pub permissions : List String
  pub role : WorkspaceRole
  pub workspace_id : String

abbrev pub is_owner : WorkspaceRole → Bool
is_owner owner = true
is_owner _ = false

-- `["owner", "admin"].includes(role)`
abbrev pub is_manager : WorkspaceRole → Bool
is_manager owner = true
is_manager admin = true
is_manager _ = false

unfoldable pub find_actor : Db → AccessChange → Option WorkspaceMember
find_actor db c =
    find?
      (λ m.
        m.user_id == c.actor_user_id && (m.workspace_id == c.workspace_id && is_active m.status))
      db.members

unfoldable pub find_target : Db → AccessChange → Option WorkspaceMember
find_target db c = find? (λ m. m.id == c.member_id && m.workspace_id == c.workspace_id) db.members

abbrev pub is_active_owner : String → WorkspaceMember → Bool
is_active_owner workspace_id m =
    m.workspace_id == workspace_id && (m.role == "owner" && is_active m.status)

-- `ownerCount`
unfoldable pub owner_count : Db → String → ℕ
owner_count db workspace_id = length (filter (is_active_owner workspace_id) db.members)

abbrev refuse_if : Bool → WorkspaceError → Io Db WorkspaceError (Unit {0})
refuse_if true e = throw e
refuse_if false e = resolve tt

abbrev lift : {A : Type 0} → Result WorkspaceError A → Io Db WorkspaceError A
lift r db = (r, db)

abbrev or_throw : {A : Type 0} → Option A → WorkspaceError → Io Db WorkspaceError A
or_throw none e = throw e
or_throw (some a) e = resolve a

-- The four refusals, in their order.
unfoldable pub check_change :
    AccessChange
    → WorkspaceMember
    → WorkspaceRole
    → WorkspaceRole
    → Io Db WorkspaceError WorkspaceMember
check_change c target actor_role target_role = do
  refuse_if (is_owner target_role && not (is_owner actor_role)) owner_edited_by_other
  refuse_if (is_owner c.role && not (is_owner actor_role)) owner_granted_by_other
  refuse_if
      (target.user_id == c.actor_user_id
        && (not (contains (set_of c.permissions) "members.manage") || not (is_manager c.role)))
      own_access_removed
  λ db.
      refuse_if
        (is_owner target_role && (not (is_owner c.role) && leb (owner_count db c.workspace_id) 1))
        last_owner db
  resolve target

-- Everything that the transaction reads and checks before it writes; the result is the target.
unfoldable pub authorize : AccessChange → Io Db WorkspaceError WorkspaceMember
authorize c = do
  actor ← λ db. or_throw (find_actor db c) member_not_found db
  target ← λ db. or_throw (find_target db c) member_not_found db
  actor_role ← lift (assert_role actor.role)
  target_role ← lift (assert_role target.role)
  check_change c target actor_role target_role

-- The overrides that turn the role's defaults into the wanted permissions.
unfoldable pub custom_permissions : WorkspaceRole → List String → List PermissionOverride
custom_permissions role permissions =
    map (λ p. record { effect = grant; permission = p })
      (filter (λ p. not (contains (set_of (default_permissions_by_role role)) p)) permissions)

unfoldable pub denied_permissions : WorkspaceRole → List String → List PermissionOverride
denied_permissions role permissions =
    map (λ p. record { effect = deny; permission = p })
      (filter (λ p. not (contains permissions p)) (set_of (default_permissions_by_role role)))

unfoldable pub overrides_for : WorkspaceRole → List String → List PermissionOverride
overrides_for role permissions =
    custom_permissions role permissions ++ denied_permissions role permissions

abbrev pub set_role : String → String → WorkspaceMember → WorkspaceMember
set_role id role m = if m.id == id then record m { role = role } else m

abbrev pub to_row : String → PermissionOverride → WorkspaceMemberPermission
to_row member_id o = record { effect = o.effect; member_id = member_id; permission = o.permission }

-- The insert breaks the unique index over member and permission if a permission stands twice: the
-- member's old rows are gone by then.
unfoldable pub insert_overrides : String → List PermissionOverride → Io Db WorkspaceError (Unit {0})
insert_overrides member_id overrides db =
    if distinct (map (λ o. o.permission) overrides)
    then (
      ok tt,
      record db { member_permissions = db.member_permissions ++ map (to_row member_id) overrides },
    )
    else (err unique_violation, db)

unfoldable pub update_role : AccessChange → Io Db WorkspaceError (Unit {0})
update_role c db =
    (ok tt, record db { members = map (set_role c.member_id (role_name c.role)) db.members })

unfoldable pub delete_overrides : String → Io Db WorkspaceError (Unit {0})
delete_overrides member_id db = (
  ok tt,
  record db {
    member_permissions = filter (λ row. not (row.member_id == member_id)) db.member_permissions;
  },
)

abbrev pub audit_entry : AccessChange → WorkspaceMember → AuditLog
audit_entry c target = record {
  action = "workspace.member_permissions_updated";
  actor_user_id = c.actor_user_id;
  permissions = c.permissions;
  role = c.role;
  target_user_id = target.user_id;
  workspace_id = c.workspace_id;
}

unfoldable pub log_change : AccessChange → WorkspaceMember → Io Db WorkspaceError (Unit {0})
log_change c target db =
    (ok tt, record db { audit_log = db.audit_log ++ (audit_entry c target ∷ []) })

unfoldable pub write_access : AccessChange → WorkspaceMember → Io Db WorkspaceError (Unit {0})
write_access c target = do
  update_role c
  delete_overrides c.member_id
  insert_overrides c.member_id (overrides_for c.role c.permissions)
  log_change c target

abbrev pub change_access : AccessChange → Io Db WorkspaceError String
change_access c = do target ← authorize c; write_access c target; resolve target.user_id

-- `db.transaction`
abbrev pub commit : {A : Type 0} → Db → Result WorkspaceError A × Db → Result WorkspaceError A × Db
commit before (ok a, changed) = (ok a, changed)
commit before (err e, changed) = (err e, before)

unfoldable pub transaction : {A : Type 0} → Io Db WorkspaceError A → Io Db WorkspaceError A
transaction m db = commit db (m db)

module _ (engine : Engine) where
  -- The views are listed after the transaction, from the changed tables.
  unfoldable pub find_changed : String → String → Io Db WorkspaceError (Option WorkspaceMemberView)
  find_changed workspace_id user_id = do
    views ← λ db. (list_workspace_members engine false workspace_id db, db)
    resolve (find? (λ v. v.joined.member.user_id == user_id) views)

  unfoldable pub update_workspace_member_access :
      Bool → AccessChange → Io Db WorkspaceError (Option WorkspaceMemberView)
  update_workspace_member_access true c = throw needs_database
  update_workspace_member_access false c = do
    user_id ← transaction (change_access c)
    find_changed c.workspace_id user_id
