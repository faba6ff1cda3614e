-- ===== src/Serving.antt =====
-- A pool with its callers: scheduler/internal/api/handlers.go from the making of the result channel
-- on, together with scheduler/internal/workerpool/pool.go.
pub mod System
pub mod Known
pub mod Counts
pub mod Told
pub mod Replies
pub mod Work
pub mod Progress
