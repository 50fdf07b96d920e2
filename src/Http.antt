-- ===== src/Http.antt =====
-- internal/core/httpx, internal/core/middleware and internal/core/etag/handler.go: what stands between
-- a handler and the connection.
pub mod Writer
pub mod Recorder
pub mod Conditional
pub mod Transparent
pub mod Problem
pub mod Beside
pub mod Replaced
pub mod Middleware
pub mod Recovered
pub mod Server
mod Tests
