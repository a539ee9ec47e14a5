-- ===== src/Process.antt =====
-- internal/process: the extra process, its environment, its user and its config file.
pub mod Child
pub mod Config
pub mod Lifecycle
pub mod Windows
mod Tests
