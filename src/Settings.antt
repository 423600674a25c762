-- ===== src/Settings.antt =====
-- frontend/src/components/settings/memberPermissions.tsx: the page where the access of members is edited.
pub mod Members
pub mod Invitations
pub mod Same
pub mod Editing
