-- ===== src/Workspace/Access.antt =====
-- frontend/src/lib/db/workspaceQueries.ts: `updateWorkspaceMemberAccess`, as the checks of its
-- transaction, the writes, and their composition.
pub mod Update
pub mod Overrides
pub mod Checks
pub mod Writes
pub mod Laws
