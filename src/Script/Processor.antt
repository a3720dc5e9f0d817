-- ===== src/Script/Processor.antt =====
-- The state machine that runs scripts: class SourceProcessor (p44script.cpp).
pub mod State
pub mod Stack
pub mod Terms
pub mod Members
pub mod Assignment
pub mod Expression
pub mod Statements
pub mod Step
pub mod Tree
pub mod Reading
pub mod OperatorText
pub mod Steps
pub mod Operands
pub mod Frames
pub mod LeftSide
pub mod FirstTerm
pub mod Group
pub mod Evaluation
pub mod Composition
pub mod Precedence
pub mod Value
pub mod Leaves
pub mod Parentheses
pub mod Expressions
pub mod Runs
pub mod StatementRuns
mod LoopRuns
pub mod Catching
pub mod Leaving
pub mod Branches
pub mod WhileRounds
pub mod WhileLoops
