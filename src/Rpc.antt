-- ===== src/Rpc.antt =====
-- internal/rpc: the framed wire protocol and the handlers behind it.
pub mod Frame
pub mod Dispatch
pub mod Writer
pub mod State
pub mod Lifecycle
pub mod TestEnv
pub mod Connections
pub mod Egress
pub mod Vpn
pub mod AutoSelector
pub mod Diagnostics
pub mod Dashboard
pub mod UrlTest
pub mod SpeedTest
mod ProbeTests
mod StatusTests
mod SystemTests
mod Tests
