-- ===== src/Http/Client.antt =====
-- frontend/src/lib/backend/directClient.ts: `apiFetch` with its CSRF token, kept by
-- frontend/src/lib/auth/localSession.ts.
pub mod Fetch
pub mod Token
pub mod Tokens
pub mod Laws
pub mod Refresh
pub mod Upload
