-- ===== src/Loadgen.antt =====
-- scheduler/cmd/loadgen/main.go: the load generator.
pub mod Send
pub mod Decode
pub mod Parsed
pub mod Agreed
pub mod Answered
pub mod Outcome
pub mod Feed
pub mod Fed
pub mod Held
pub mod Once
pub mod Ends
pub mod Tally
pub mod Latency
pub mod Ascending
pub mod Percentiles
pub mod Summary
pub mod Codes
pub mod Report
pub mod Main
pub mod Url
pub mod Joined
pub mod Asked
