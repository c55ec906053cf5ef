-- ===== src/State.antt =====
-- state/: the persisted records of tasks.
pub mod Json
pub mod File
mod FileTests
pub mod Laws
pub mod Manager
pub mod Sqlite
pub mod Open
pub mod Stores
pub mod Listing
pub mod Memory
mod Tests
