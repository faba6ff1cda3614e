-- ===== src/Workerpool.antt =====
-- scheduler/internal/workerpool/pool.go: one engine's worker pool.
pub mod Pool
pub mod Trace
pub mod Invariant
pub mod Submit
pub mod Drain
