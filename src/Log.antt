-- ===== src/Log.antt =====
-- maintenance/log/sink.go: the log sink and its ring buffer.
pub mod Ring
pub mod Sink
pub mod Remote
pub mod RequestId
mod Tests
