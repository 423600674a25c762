-- ===== src/Artifacts.antt =====
-- Documents that the model writes (frontend/src/artifacts, frontend/src/lib/artifacts) and the panel
-- that shows them while they come in (frontend/src/components/chat/dataStreamHandler.tsx).
pub mod Panel
pub mod Fences
pub mod Handlers
pub mod Batches
pub mod Streaming
pub mod Saving
pub mod Versions
