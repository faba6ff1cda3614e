-- ===== src/Api.antt =====
-- scheduler/internal/api/handlers.go: the HTTP handlers.
pub mod Wire
pub mod Bodies
pub mod Params
pub mod Escape
pub mod Budget
pub mod Server
pub mod Predict
pub mod Handler
pub mod Answer
pub mod Codes
pub mod Effects
pub mod Counted
pub mod Route
pub mod Hot
pub mod Named
pub mod Overview
pub mod Latest
pub mod Image
