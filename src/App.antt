-- ===== src/App.antt =====
-- internal/app: what ties the clipboard, the chunks and the mesh together.
pub mod Config
pub mod Control
pub mod PeerLog
pub mod Status
pub mod Runtime
pub mod Lifetime
pub mod Tests
