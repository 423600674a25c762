-- ===== src/Http/Session.antt =====
-- frontend/src/lib/auth/localSession.ts: the session calls.
pub mod Calls
pub mod Quiet
pub mod Laws
