-- ===== src/Lib.antt =====
-- A verification library beside the IN10dhost daemon, which drives 1-Wire switches from a Linux host.
--
-- The program. The daemon reads and writes 1-Wire devices through a DS2482 controller
-- (src/ds2482.cpp). A ds2408 (src/ds2408.cpp) is an eight-channel switch whose pins are inputs, plain
-- outputs or dimmed (PWM) outputs. A button raises an alarm; the switch handler
-- (src/switch_handler.cpp) takes the latch as the source of its table and switches the targets, some
-- of them with a timer that switches off again. Users edit the table and the pins as text in a file
-- system. A device's firmware is written through its bootloader (src/fw_update.cpp).
--
-- Prelude: Boolean tests, lists, texts as lists of byte codes, signed integers and the bits of a
-- number, all over the native numbers. Numbers: `std::stol` and `std::from_chars`, as the standard
-- describes them, with the reading of decimal digits back (Numbers/Decimal).
-- Parse: `parse_num` of src/parse.cpp; Parse/Grammar is an independent description of what it reads.
-- Bus: the controller's calls as an interface, whose state is the whole bus and whose answers are
-- arbitrary; include/ds2482.h. Crc: the checksums of src/ds2482.cpp.
-- Chip: the rest of src/ds2482.cpp, the controller over an I2C adapter (`I2c`, a parameter) with the search
-- of the bus; Chip/Wait is about its waiting for the chip. It is not joined to `Bus` yet.
-- Pin: include/interface/pin.h.
-- OwDev: src/ow_dev.cpp, what all devices have: the ROM code (OwDev/Rom), the polling (OwDev/Polling) and
-- the files of every device (OwDev/Files).
-- FsTable: include/fs_table.h, the files of a device as rows of a table, on any state; Match and First
-- are about the row that a path finds.
-- Ds2408: the device as a record (State), its transfers (Wire), the switching of pins (Switch), the
-- register read with the alarm and the watchdog (Registers), its configuration on the bus (Config), one
-- function per method of src/ds2408.cpp. Formats, Leaves and Settings are the handlers of its files,
-- Files the table with them. BlLink is the bootloader on the bus (OwBlLink) as the `FwLink` of an
-- update, Firmware the leaf and the thread of the update. Outputs, Pins, Masks, Roles, Bitfield, WriteRead,
-- Written and Alarm are about these.
-- Ds2450: src/ds2450.cpp, the converter; Ds1820: src/ds1820.cpp, the thermometer. Ds2450/Volts,
-- Ds1820/Temperature and Ds1820/Config are about these.
-- Directory: what src/fs_role.cpp and src/fs_room.cpp share, and the pins across the devices; Role and Room
-- are the directories, Role/Paths, Role/Listed, Room/Dark and Window about these.
-- Leaf: src/fs_leaf.cpp, the files under /settings and /status; Leaf/Interval is about one of them.
-- Fs: src/fs.cpp, the callbacks over paths; `Parts` is the interface to what they reach. Fs/Listing
-- has the listing of a directory, over `Places`. Below, Devices, Alarm and Once are about these.
-- Registry: src/ow_devices.cpp, the devices by their ROM codes and the times of their polls; a device is
-- its place in the cache. Registry/Sorted and Registry/Updated are
-- about the list.
-- Switches: src/switch_handler.cpp and include/switch_handler.h. Address has the packed unions and the
-- table's entry, Line the text of an entry, Table the writes, Timers the map of off timers, Handler
-- the handling of a press and the poll, Alarm the presses of an alarm, Leaves the dark flags and the
-- text of the list. RoundTrip, Writes, Distinct, Press, Masked,
-- Drained and Silent are about these.
-- Fw: src/fw_update.cpp. Hex is the Intel HEX reader and the loading of a file, Write the update on a
-- `FwLink`; Size, Verified and Update are about these.
--
-- How state is modelled. Each method that changes state takes the state and returns the new one, in
-- the order of the source's calls. A bus transfer goes through `Bus`; what a device answers is
-- decided by the bus, so that a theorem on all busses holds whatever fails. A method that reads the
-- clock takes the time in nanoseconds. Log lines, locks and the waits between attempts are left out;
-- each method is one step, as it runs under its lock. The code is that of the build with USE_I2C.
--
-- A temperature is kept in sixteenths of a degree and a voltage in 1024ths of a volt, which floats hold
-- exactly; "%1.2f" is `Numbers/Fixed`.
--
-- Bounds. The loops of latch_reset, pio_set and reg_read make 19 attempts (`retry 18`, one and at most 18 more),
-- as `--retry > 0` from 19 does. A page is tried 3 times, and the result of its programming read 10
-- times. busyWait reads 500 times at most, and a search goes over 64 bits. The digits of a number are printed on a fuel
-- of the number plus one, which is enough since each step divides by ten. Bit fields keep their widths
-- by remainders.
--
-- Not modelled: the registry's search and alarm handler on the
-- bus, its saved configuration, the alarm of a device that is no ds2408, the controller board, plugins, the command line, and all JSON. The texts of an
-- update's status are values, spelled by a parameter, since some of them hold the C library's error
-- texts; files are a function from their paths. The ring buffer is a copy of another project's library.
-- That an update leaves its image in the flash is stated for a `FwLink` whose reads are true and whose
-- writes stay within their page (`IsTrue`).
pub mod Prelude
pub mod Numbers
pub mod Parse
pub mod Bus
pub mod Crc
pub mod Pin
pub mod OwDev
pub mod FsTable
pub mod Ds2408
pub mod Ds2450
pub mod Ds1820
pub mod Chip
pub mod Registry
pub mod Switches
pub mod Fw
pub mod Leaf
pub mod Directory
pub mod Fs
