-- ===== src/Api.antt =====
-- internal/api: the HTTP server. The sessions are the state of the server, a map from token to
-- username; a handler answers with a `Reply`.
pub mod Auth
pub mod Handlers
pub mod Listing
pub mod Stats
pub mod AccessLog
pub mod Terminal
pub mod Routes
pub mod Server
