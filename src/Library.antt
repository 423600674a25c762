-- ===== src/Library.antt =====
-- frontend/src/components/upload/knowledgeFileLibrary.tsx: the files of a knowledge base and the documents
-- parsed from them.
pub mod Loads
pub mod Page
pub mod Started
pub mod OneLoad
pub mod Kept
pub mod Overlaps
pub mod Chunks
