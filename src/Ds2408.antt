-- ===== src/Ds2408.antt =====
-- src/ds2408.cpp, include/ds2408.h: the eight-channel switch, its outputs, levels, registers and
-- watchdog.
pub mod State
pub mod Wire
pub mod Switch
pub mod Registers
pub mod Alarm
pub mod Outputs
pub mod Pins
pub mod Formats
pub mod Bitfield
pub mod Masks
pub mod Roles
pub mod Leaves
pub mod WriteRead
pub mod Settings
pub mod Files
pub mod BlLink
pub mod Firmware
pub mod Config
pub mod Written
pub mod Tests
pub mod Confirming
mod LeafTests
