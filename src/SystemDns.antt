-- ===== src/SystemDns.antt =====
-- internal/boxdns: the system's DNS servers while the core answers DNS itself, on Windows.
pub mod Manager
pub mod Lists
pub mod Undone
pub mod Left
mod Tests
