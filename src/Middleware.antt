-- ===== src/Middleware.antt =====
-- http/middleware: the middlewares around every request.
pub mod Dependency
pub mod Forwarded
pub mod Metrics
mod Tests
