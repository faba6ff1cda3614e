-- ===== src/Routing.antt =====
-- scheduler/internal/routing/policy.go: which engine serves a request. A policy is a value with the
-- tie breaker's counter; `select_engine` returns the name, or an error, and the policy afterwards.
pub mod Pick
pub mod Policy
pub mod Sound
pub mod Candidates
pub mod Thermal
pub mod Order
pub mod Windows
pub mod RoundRobin
