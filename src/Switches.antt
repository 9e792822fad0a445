-- ===== src/Switches.antt =====
-- src/switch_handler.cpp, include/switch_handler.h: the switch table, its text form, the off timers
-- and what a press does.
pub mod Address
pub mod Line
pub mod RoundTrip
pub mod Table
pub mod Writes
pub mod Distinct
pub mod Timers
pub mod Handler
pub mod Press
pub mod Masked
pub mod Alarm
pub mod Leaves
pub mod Drained
pub mod Silent
mod Tests
mod Runs
mod AlarmTests
