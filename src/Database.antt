-- ===== src/Database.antt =====
-- What frontend/src/lib/db relies on of PostgreSQL, and a concrete engine that meets it.
pub mod Engine
pub mod Sorting
