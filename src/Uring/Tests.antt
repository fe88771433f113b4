-- ===== src/Uring/Tests.antt =====
-- Runs of the `io_uring` backend, and its theorems at concrete inputs.
mod Simulated
mod Exact
mod Stale
mod Slices
mod Cursor
mod Batch
mod Whole
mod Calls
