-- ===== src/Text.antt =====
-- The text functions of utils.cpp and utils.hpp.
pub mod Chars
pub mod Shape
pub mod Quote
pub mod Lines
pub mod Csv
pub mod Hex
pub mod Shell
pub mod Bounds
pub mod CsvRoundTrip
pub mod LineSplit
pub mod HexRoundTrip
pub mod Gtin
mod Runs
