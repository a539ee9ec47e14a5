-- ===== src/Xray.antt =====
-- internal/xray: the gate in front of an Xray instance that is started on demand.
pub mod Gate
pub mod Remap
pub mod Resolver
pub mod Startup
mod ResolverTests
mod Tests
