-- ===== src/Engineclient.antt =====
-- scheduler/internal/engineclient/client.go: the client of one engine.
pub mod Client
pub mod Reached
pub mod Forward
