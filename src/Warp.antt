-- ===== src/Warp.antt =====
-- internal/warp: the registration of a device with the WARP API.
pub mod Client
pub mod Hosts
pub mod Register
mod Tests
