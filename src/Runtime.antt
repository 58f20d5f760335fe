-- ===== src/Runtime.antt =====
-- http/jsonapi/runtime: the errors that are sent to a client (error.go), the scanning of a request's
-- parameters (parameters.go) and their validation (validation.go); pkg/isotime, which scans times.
pub mod Errors
pub mod Isotime
pub mod Middleware
pub mod Scan
pub mod Validation
mod Tests
