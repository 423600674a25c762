-- ===== src/Uploads.antt =====
-- frontend/src/components/upload/uploadPage.tsx: the page that uploads files to a knowledge base.
pub mod Page
pub mod Identities
pub mod Settled
pub mod Answers
pub mod Waiting
pub mod Counts
pub mod Runs
