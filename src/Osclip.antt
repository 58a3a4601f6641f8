-- ===== src/Osclip.antt =====
-- internal/osclip: the clipboard manager and the ledger that suppresses echoes.
pub mod Pending
pub mod Manager
pub mod Watching
pub mod Tests
