-- ===== src/Http/Requests.antt =====
-- frontend/src/lib/backend/request.ts: requests that report refusals and time out.
pub mod Backend
pub mod Laws
