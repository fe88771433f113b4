-- ===== src/Lib.antt =====
-- Verification of fastio, a crate of file I/O backends with backend-owned handles.
--
-- The program. `src/write.rs` validates batches of positioned writes, which every backend takes.
-- `src/buffer.rs` is the owned buffer that reads return, over pooled, mapped or plain memory, and
-- `src/mmap.rs` maps files read-only. `src/uring.rs` is the `io_uring` backend: handles share a
-- ring per thread; four operations run one submission loop with short transfers, a bounded number
-- of requests in flight, and the first error kept until the requests have landed; a cursor that
-- clones share runs single requests. `src/sync/` blocks, and `src/tokio/mod.rs` runs the blocking
-- calls in tasks.
--
-- Where things are. `Prelude` and `Io` hold the shared names: lists and tests over the native
-- numbers, `std::io` errors, results with panics, checked sums. `Write` is `src/write.rs`, with
-- the sort in `Write/Sorting` and the verdict of the constructor in `Write/Verdict`;
-- `Write/Unordered` is what a batch writes when the order of its slices is forgotten, which
-- `Sync/Whole/Unordered` holds the blocking backends against, and `Write/Accepts` is about the
-- verdict in any order. `Buffer` is `src/buffer.rs`, `Mmap` is `src/mmap.rs`, with `subregion` in
-- `Mmap/Region`, `map_range` in `Mmap/Range` and `map` in `Mmap/Whole`.
--
-- `Uring/Ring` is the interface to the `io-uring` crate and the kernel: operations on a `World`,
-- and the laws that the backend relies on. `Uring/Loop` is the loop with its variables `done`,
-- `state`, `in_flight` and `pending_error` (here `bytes_done`, `state`, `flying`,
-- `pending_error`); what differs between the four operations is a `Plan`. Its proofs are below
-- it: `Invariant` (the vectors, the counter and the requests in flight agree), `Submit`, `Round`
-- and `Pass` (the submissions), `Early` (the early return), `Rounds` (bounds after any rounds),
-- `Reap` and `Tally` (the completions), `Origin` (which errors are kept), `Bytes` (which bytes a
-- round changes), `Start` and `Drive` (the whole loop). `Uring/Cache` is `with_ring`; `Uring/Exact` the exact transfers,
-- `Uring/Slices` the batch of writes, `Uring/Batch` the batch of reads, which gets its buffers in
-- `Uring/Regions`; `Uring/Once` a single request, `Uring/Cursor` the cursor with its `Read`,
-- `Write` and `Seek` (what a call that returned has done in `Returned`, the writes of clones in
-- `Clones`, and any calls of clones against a file with a cursor in `Sequential`), and
-- `Uring/Options` the options and the constructors of handles. `Uring/Whole` has `read_all`,
-- `read_at` and the public names of the exact transfers, with what is written and read back in
-- `RoundTrip`, `Uring/Session` the calls of a thread, one after the other, and `Uring/Healthy` is
-- about a ring that raises no error.
-- `Uring/Tests/Stale` runs a call after one that left a request in flight.
--
-- `Open` is the interface to the options of `std::fs` and of `tokio::fs`, and `StdFile` that to
-- the calls of their files; `Sync/Options` and `Tokio/Options` are the options of these backends,
-- compared in `Tokio/Same`, and the `Calls` modules are the calls that handles pass on.
-- `Positioned` is the interface to the positioned calls of a file, over which `Sync/Whole` has
-- `read_all`, `read_at` and `write_slices_at` of `src/sync/linux.rs`, with the reads in `Fetch`,
-- the batch in `Store`, its errors in `First` and what is read back in `RoundTrip`. `Sync/MacOs`
-- is `src/sync/macos.rs`, which has the same text. `Sync/Windows` is `src/sync/windows.rs`: its
-- loops over `seek_read` and `seek_write` and the saved cursor; `Sync/Windows/Contract` makes
-- them an instance of that interface, and so does `Tokio/Task` for the calls in tasks of
-- `src/tokio/mod.rs`, with its calls for Windows in `Tokio/Windows`. `Tokio/Waves` is its
-- `write_slices_at` as a step relation: `Chunks` are the waves, `Threads` what a thread has
-- written, `Scopes` what the scope returns, `Bound` an order that succeeds and `Outcome` all waves;
-- `Tokio/Batch` is the task around them. `Tokio/Windows/Shared` is the same relation on Windows,
-- with the cursor that the threads of a wave share: `Erased` relates the two, `Alone` and `Known`
-- say where the cursor can be afterwards, with `Spoiled` for calls that fail, `Lost` how it is
-- lost, `Possible` how it is not, and `Bounded` that every order of the steps comes to an end.
-- `Samples` has a file in memory and a pool for the tests.
--
-- Bounds. Integers are natural numbers with the checks of the source written out; `usize` has 64
-- bits where the source converts. The submission loop takes fuel: the bytes of all chunks, the
-- depth and two, since each round with a completion moves a byte, or sets the error, or takes a
-- request out of flight; that a wait is followed by a completion is the hypothesis `Wakes`. The
-- loops of `Sync/Windows` take the length of the buffer, since each round moves a byte.
--
-- Not modelled. The ring and the kernel, the mapping of files, the pool of buffers, the files and
-- the options of the standard library and of Tokio are parameters, with laws that state their
-- documented behaviour: a positive result is the number of bytes moved, and only targets of
-- requests in flight are written. The memory and the files are bytes at places; nobody else
-- writes them meanwhile, and the threads of different rings do not meet. `Debug` of the types has
-- no model, and neither have the tests, the benchmarks and the re-exports of `src/lib.rs` and
-- `src/sync/mod.rs`.
pub mod Buffer
pub mod Io
pub mod Mmap
pub mod Open
pub mod Positioned
pub mod Prelude
pub mod Samples
pub mod StdFile
pub mod Sync
pub mod Tokio
pub mod Uring
pub mod Write
