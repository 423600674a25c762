-- ===== src/Http/Client/Laws.antt =====
-- frontend/src/lib/backend/directClient.ts: the requests that one `apiFetch` sends.
pub mod Growth
pub mod Retry
pub mod Carried
pub mod Uploads
pub mod Recovery
