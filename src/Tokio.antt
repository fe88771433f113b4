-- ===== src/Tokio.antt =====
-- The Tokio backend (src/tokio/mod.rs).
pub mod Options
pub mod Calls
pub mod Same
pub mod Task
pub mod Waves
pub mod Windows
pub mod Batch
mod Tests
