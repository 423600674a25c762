-- ===== src/Polling.antt =====
-- frontend/src/components/upload/knowledgeFileLibraryPolling.ts: a poller that runs one task at a time.
pub mod Poller
pub mod Flights
