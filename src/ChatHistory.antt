-- ===== src/ChatHistory.antt =====
-- frontend/src/lib/backend/chatHistoryCache.ts: the chat history that the browser keeps, and
-- frontend/src/components/chat/sidebarHistory.tsx, which shows it.
pub mod Cache
pub mod Entries
pub mod Repeat
pub mod Sidebar
pub mod Deletion
pub mod Groups
