-- ===== src/Serial.antt =====
-- Operations that send and receive bytes, and the bytes that a queue of them accepts
-- (serialqueue.cpp, serialqueue.hpp).
pub mod Operation
pub mod Queue
pub mod Delivery
pub mod Acceptance
mod Runs
