-- ===== src/Conversations.antt =====
-- frontend/src/lib/db/queries.ts and errors.ts: chats, messages, documents and their errors.
pub mod Errors
pub mod Tables
pub mod Statements
pub mod Queries
pub mod Paging
pub mod Deletion
pub mod Pages
pub mod Truncation
pub mod Responses
pub mod Versions
pub mod Contract
pub mod Mock
