-- ===== src/Worker.antt =====
-- worker/: the workers that run a task in a process and turn its output into events.
pub mod Cline
pub mod Stream
pub mod Python
mod Tests
