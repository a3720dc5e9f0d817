-- ===== src/Script/Processor/Statements.antt =====
-- Statements of the script language: the handlers of class SourceProcessor (p44script.cpp).
pub mod Keywords
pub mod Conditions
pub mod Loops
pub mod Foreach
pub mod Definitions
pub mod Jumps
pub mod Process
