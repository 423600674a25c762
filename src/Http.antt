-- ===== src/Http.antt =====
-- frontend/src/lib/backend and frontend/src/lib/auth: how the browser reaches the API.
pub mod Urls
pub mod Message
pub mod Client
pub mod Session
pub mod Streams
pub mod Requests
pub mod Fetchers
