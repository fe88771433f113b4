-- ===== src/Uring.antt =====
-- The `io_uring` backend (src/uring.rs): the ring as an interface, the submission loop that four
-- operations share, the operations, the cursor, and the options.
pub mod Ring
pub mod Loop
pub mod Cache
mod Tests
pub mod Exact
pub mod Slices
pub mod Once
pub mod Cursor
pub mod Batch
pub mod Options
pub mod Calls
pub mod Session
pub mod Whole
pub mod Regions
pub mod Healthy
