-- ===== src/Workspace.antt =====
-- frontend/src/lib/db/workspaceQueries.ts over the tables of frontend/src/lib/db/schema.ts:
-- memberships, their permission overrides and the change of a member's access.
pub mod Tables
pub mod Roles
pub mod Membership
pub mod Access
