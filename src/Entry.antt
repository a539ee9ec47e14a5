-- ===== src/Entry.antt =====
-- main.go with internal/parentcheck and internal/ipc, on Unix: which connection the core serves.
pub mod Parent
pub mod Core
pub mod Watchdog
mod Tests
