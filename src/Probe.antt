-- ===== src/Probe.antt =====
-- internal/probe: batches of measurements through the outbounds of a box.
pub mod Buffer
pub mod Session
pub mod Handshake
pub mod Dialer
pub mod Batch
pub mod Tunnels
pub mod UrlTest
pub mod SpeedTest
mod Tests
