-- ===== src/Examples.antt =====
-- Sample states, runs of the modelled code on them, and the theorems at those inputs.
pub mod Members
pub mod Browser
pub mod Chats
pub mod Streams
pub mod Uploads
pub mod Stores
pub mod Turns
pub mod Panels
pub mod Pages
pub mod Accounts
pub mod Settings
pub mod Library
