-- ===== src/Ingestion.antt =====
-- frontend/src/components/upload/automatedIngestion.mjs: waiting for an uploaded document.
pub mod Wait
pub mod Trace
pub mod Done
pub mod Pages
pub mod Bounds
pub mod Readiness
pub mod Progress
