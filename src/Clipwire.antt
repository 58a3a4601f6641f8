-- ===== src/Clipwire.antt =====
-- internal/clipwire: the payload and chunk messages, their validation, and chunking.
pub mod Types
pub mod Utf8
pub mod Payload
pub mod Chunking
pub mod Tests
