-- ===== src/Sysmonitor.antt =====
-- scheduler/internal/sysmonitor/monitor.go: the system monitor.
pub mod State
pub mod Parse
pub mod Monitor
pub mod Merge
pub mod Temps
pub mod Ram
pub mod Loops
pub mod Debug
pub mod Unstarted
pub mod Shown
pub mod Explained
pub mod Supervision
