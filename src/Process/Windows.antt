-- ===== src/Process/Windows.antt =====
-- internal/process/process_windows.go: handles, and who the extra process runs as on Windows.
pub mod Handles
pub mod Sessions
pub mod Tokens
pub mod Start
pub mod Runner
mod Tests
