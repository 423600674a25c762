-- ===== src/Http/Streams.antt =====
-- frontend/src/lib/backend/request.ts: the event stream of `requestBackendEventStream`.
pub mod Frames
pub mod Events
pub mod Chunks
pub mod RoundTrip
