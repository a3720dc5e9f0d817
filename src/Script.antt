-- ===== src/Script.antt =====
-- The source cursor of the script language (p44script.cpp, p44script.hpp).
pub mod Cursor
pub mod Operators
pub mod Spellings
pub mod Literals
pub mod Walk
pub mod Ends
pub mod AtCode
pub mod Comments
pub mod NonCode
pub mod StringChars
pub mod StringRoundTrip
pub mod Processor
mod Runs
