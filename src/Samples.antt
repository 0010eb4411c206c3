-- ===== src/Samples.antt =====
-- The theorems at concrete inputs, and runs of the definitions.
pub mod Versions
pub mod Epochs
pub mod Encodings
pub mod Logs
pub mod Locks
pub mod Replays
pub mod Trees
pub mod Rows
