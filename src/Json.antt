-- ===== src/Json.antt =====
-- JSON values as encoding/json sees them, for the bodies that the scheduler writes and its tools read.
pub mod Value
pub mod Encode
pub mod Decode
pub mod Texts
