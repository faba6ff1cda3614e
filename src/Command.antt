-- ===== src/Command.antt =====
-- scheduler/cmd/scheduler/main.go: the scheduler's command.
pub mod Engines
pub mod Listing
pub mod Wiring
pub mod Mux
pub mod Served
