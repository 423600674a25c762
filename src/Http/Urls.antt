-- ===== src/Http/Urls.antt =====
-- frontend/src/lib/backend/directClient.ts and mode.ts: the address that a request goes to.
pub mod Params
pub mod Mapping
pub mod Scope
pub mod Parts
pub mod Routes
pub mod Sound
pub mod Complete
pub mod Versions
