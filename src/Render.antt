-- ===== src/Render.antt =====
-- gateway/renderer*.go: the Block Kit messages for the events of a task.
pub mod Kit
pub mod Helpers
pub mod Start
pub mod Progress
pub mod Done
pub mod Hitl
pub mod Card
pub mod Fixed
mod Bar
mod Grid
mod Layout
mod Texts
mod Tests
