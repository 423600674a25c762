-- ===== src/Permissions.antt =====
-- frontend/src/lib/permissions.ts: workspace roles, the permission catalogue and how a member's
-- effective permissions follow from the role and the individual overrides.
pub mod Catalog
pub mod Effective
pub mod Laws
pub mod Order
