-- ===== src/Workspace/Tables.antt =====
-- frontend/src/lib/db/schema.ts: the tables that workspaceQueries.ts reads and writes. A table is the
-- list of its rows. The columns that no query reads (`updatedAt`, generated ids of log rows) are left
-- out. A role is a text, since the column is one.
use agent_workflow_fast_api.Base.{ℕ, String, List, Option}
use agent_workflow_fast_api.Permissions.Catalog.{WorkspaceRole}
use agent_workflow_fast_api.Permissions.Effective.{Effect}

pub data MemberStatus : Type 0 where
  active suspended : MemberStatus

pub record UserRow : Type 0 where
  pub id : String
  pub email : String
  pub name : Option String

pub record WorkspaceRow : Type 0 where
  pub id : String
  pub name : String

pub record WorkspaceMember : Type 0 where
  pub id : String
  pub created_at : ℕ
  pub role : String
  pub status : MemberStatus
  pub user_id : String
  pub workspace_id : String

pub record WorkspaceMemberPermission : Type 0 where
  pub effect : Effect
  pub member_id : String
  pub permission : String

pub record AuditLog : Type 0 where
  pub action : String
  pub actor_user_id : String
  pub permissions : List String
  pub role : WorkspaceRole
  pub target_user_id : String
  pub workspace_id : String

pub record Db : Type 0 where
  pub users : List UserRow
  pub workspaces : List WorkspaceRow
  pub members : List WorkspaceMember
  pub member_permissions : List WorkspaceMemberPermission
  pub audit_log : List AuditLog

pub data WorkspaceError : Type 0 where
  unsupported_role : String → WorkspaceError
  needs_database member_not_found owner_edited_by_other owner_granted_by_other : WorkspaceError
  own_access_removed last_owner unique_violation : WorkspaceError
