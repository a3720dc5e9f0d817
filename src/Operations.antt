-- ===== src/Operations.antt =====
-- The operation queue (operationqueue.cpp, operationqueue.hpp).
pub mod Defs
pub mod Processing
pub mod Sequence
pub mod Abort
pub mod Ends
pub mod Counts
pub mod Once
mod Runs
