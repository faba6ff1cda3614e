-- ===== src/Healthcheck.antt =====
-- scheduler/internal/healthcheck/monitor.go: the background health monitor.
pub mod Monitor
pub mod Polling
pub mod Status
