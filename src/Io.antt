-- ===== src/Io.antt =====
-- Digital inputs and outputs: pins, buses, indicators and buttons (digitalio.cpp, iopin.cpp).
pub mod Digital
pub mod Bus
pub mod BusValue
pub mod Indicator
pub mod Blinking
pub mod Button
mod Runs
