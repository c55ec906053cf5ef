-- ===== src/Interaction.antt =====
-- gateway/interaction_handler.go: what the buttons and the modals of a paused task do.
pub mod Strings
pub mod Effects
pub mod Modals
pub mod Handler
pub mod Buttons
mod Press
mod Submission
pub mod Codec
mod Tests
