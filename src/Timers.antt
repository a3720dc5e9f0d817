-- ===== src/Timers.antt =====
-- The timers of the main loop (mainloop.cpp, mainloop.hpp).
pub mod Defs
pub mod Order
pub mod Tickets
pub mod Loop
pub mod TicketObject
pub mod Handlers
pub mod Rounds
pub mod Check
pub mod Retrigger
mod Runs
