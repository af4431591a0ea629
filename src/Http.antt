-- ===== src/Http.antt =====
-- internal/infrastructure/httpserver: the messages, the middleware, the handlers and the routes of
-- the HTTP API.
pub mod Messages
pub mod Middleware
pub mod Reads
pub mod Writes
pub mod Credentials
pub mod Routes
pub mod Refusals
pub mod Limits
pub mod Lifetimes
pub mod Traced
pub mod Answers
pub mod Isolation
pub mod ReplayBodies
pub mod Replaying
pub mod Recording
