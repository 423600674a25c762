-- ===== src/Accounts.antt =====
-- The account of the user in the browser: frontend/src/lib/auth.tsx and
-- frontend/src/lib/auth/applicationAuth.tsx.
pub mod Session
pub mod Application
pub mod Laws
