-- ===== src/Sync.antt =====
-- The blocking backend: `src/sync/linux.rs`, whose text is also that of `src/sync/macos.rs`, and
-- `src/sync/windows.rs`, which has loops of its own for its positioned operations.
pub mod Options
pub mod Calls
pub mod MacOs
pub mod Windows
pub mod Whole
mod Tests
