-- ===== src/Mobile.antt =====
-- mobile: the binding for the apps.
pub mod LogPump
pub mod Instance
pub mod TestEnv
pub mod UrlTest
pub mod Monitor
pub mod Status
pub mod Command
mod CommandTests
mod RunTests
mod Tests
