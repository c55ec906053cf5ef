-- ===== src/Gateway.antt =====
-- gateway/slack.go: SlackGateway.
pub mod ProgressCache
pub mod Connection
pub mod Stream
pub mod Recorded
pub mod Interactive
pub mod Actions
pub mod Reconciled
pub mod Mention
pub mod Start
pub mod Stale
pub mod Events
pub mod Wiring
pub mod Loop
mod StartTests
mod Tests
