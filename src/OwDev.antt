-- ===== src/OwDev.antt =====
-- src/ow_dev.cpp: what all devices have, the ROM code with its checksum, the state, the polling and
-- the files of every device. Times are nanoseconds of a clock that does not go back.
pub mod Rom
pub mod Polling
pub mod Files
mod Tests
use in10dhost.Prelude.{
  ℕ, zero, suc, ◌+◌, ◌-◌, ◌*◌, ◌/◌, ◌%◌, ◌^◌, Bool, true, false, ◌&&◌, not, Option, none, some,
  List, [], ◌∷◌, ◌++◌, Text, codes, length, take, drop, get_or, ltb, leb, ◌==◌, if◌then◌else◌,
  bit_xor, drop_while, is_space, same, c_str,
}
use in10dhost.Prelude.Int.{ℤ, pos, negsuc}
use in10dhost.Prelude.Find.{occurs}
use in10dhost.Numbers.{NumResult, ok, err, read_num, read_sign, skip_prefix}
use in10dhost.Numbers.Decimal.{decimal}
use in10dhost.Numbers.Hexadecimal.{hex_upper}
use in10dhost.Parse.{parse_num}
use in10dhost.Switches.Line.{low_byte, low_word}
use in10dhost.FsTable.{Reply, text, took}

-- `dscrc2x16_table`
abbrev crc8_table : List ℕ
crc8_table =
    0x00 ∷ 0x5E ∷ 0xBC ∷ 0xE2 ∷ 0x61 ∷ 0x3F ∷ 0xDD ∷ 0x83 ∷ 0xC2 ∷ 0x9C ∷ 0x7E ∷ 0x20 ∷ 0xA3 ∷ 0xFD
    ∷ 0x1F ∷ 0x41 ∷ 0x00 ∷ 0x9D ∷ 0x23 ∷ 0xBE ∷ 0x46 ∷ 0xDB ∷ 0x65 ∷ 0xF8 ∷ 0x8C ∷ 0x11 ∷ 0xAF
    ∷ 0x32 ∷ 0xCA ∷ 0x57 ∷ 0xE9 ∷ 0x74 ∷ []

unfoldable pub crc8_step : ℕ → ℕ → ℕ
crc8_step x crc =
    let c = bit_xor x crc in
    bit_xor (get_or crc8_table (c % 16) 0) (get_or crc8_table (16 + c / 16 % 16) 0)

unfoldable pub crc8_from : ℕ → List ℕ → ℕ
crc8_from crc [] = crc
crc8_from crc (x ∷ xs) = crc8_from (crc8_step x crc) xs

abbrev pub crc8 : List ℕ → ℕ
crc8 xs = crc8_from 0 xs

-- The low byte of `strtoul(s, nullptr, 16)`.
unfoldable pub hex_of : Text → ℕ
hex_of s =
    let (neg, t) = read_sign (drop_while is_space s) in
    let n = (read_num 16 0 (skip_prefix 16 t)).0 % 256 in if neg then (256 - n) % 256 else n

-- The dot behind the family, where there is none.
unfoldable pub dotted : Text → Text
dotted s =
    if leb 2 (length s) && not (get_or s 2 0 == b'.') then take 2 s ++ (b'.' ∷ drop 2 s) else s

unfoldable pub byte_at : Text → ℕ → ℕ
byte_at s i = if ltb i (length s) then hex_of (take 2 (drop i s)) else 0

unfoldable pub seven_bytes : Text → List ℕ
seven_bytes s =
    byte_at s 0
    ∷ byte_at s 3
    ∷ byte_at s 5
    ∷ byte_at s 7
    ∷ byte_at s 9
    ∷ byte_at s 11
    ∷ byte_at s 13
    ∷ []

unfoldable pub all_hex : List ℕ → Text
all_hex [] = []
all_hex (x ∷ xs) = hex_upper x ++ all_hex xs

-- "{:02X}.{:02X}…" of the eight bytes.
unfoldable pub rom_text : List ℕ → Text
rom_text [] = []
rom_text (x ∷ xs) = hex_upper x ++ (b'.' ∷ all_hex xs)

-- The address: the bytes as given and their checksum.
unfoldable pub rom_bytes : Text → List ℕ
rom_bytes s = let xs = seven_bytes (dotted s) in xs ++ crc8 xs ∷ []

unfoldable pub canonical_rom : Text → Text
canonical_rom s = rom_text (rom_bytes s)

-- `enum dev_states`
pub data DevState : Type 0 where
  ds_created ds_init ds_running ds_stale ds_invalid : DevState

pub record OwDev : Type 0 where
  pub rom : Text
  pub rom_code : ℕ
  pub kind : Text
  pub name : Text
  pub addr : List ℕ
  pub id : ℕ
  pub bus : ℕ
  pub state : DevState
  pub poll_interval : ℕ
  pub last_poll : ℕ

-- `strtoull` of the ROM without its dot.
unfoldable pub code_of : Text → ℕ
code_of rom = (read_num 16 0 (take 2 rom ++ drop 3 rom)).0

unfoldable pub update : OwDev → OwDev
update d =
    let addr = rom_bytes d.rom in
    let rom = rom_text addr in
    record d {
      rom = rom;
      addr = addr;
      rom_code = code_of rom;
      id = if d.id == 0 then get_or addr 1 0 else d.id;
    }

unfoldable pub is_running : DevState → Bool
is_running ds_running = true
is_running ds_created = false
is_running ds_init = false
is_running ds_stale = false
is_running ds_invalid = false

unfoldable pub is_stale : DevState → Bool
is_stale ds_stale = true
is_stale ds_created = false
is_stale ds_init = false
is_stale ds_running = false
is_stale ds_invalid = false

unfoldable pub init : OwDev → OwDev
init d = if is_running d.state then d else record (update d) { state = ds_init }

-- `begin`, with the device type's own `begin(soft)` as what it does to the rest, `W`.
unfoldable pub begin {ℓ} : {W : Type ℓ} → (W → W) → OwDev × W → OwDev × W
begin own (d, w) =
    if is_running d.state
    then (d, w)
    else if is_stale d.state
    then (d, w)
    else (record d { state = ds_running }, own w)

abbrev pub second : ℕ
second = 10 ^ 9

abbrev pub millisecond : ℕ
millisecond = 10 ^ 6

pub data Due : Type 0 where
  no_polling not_due due : Due

-- The clock is read once more for `last_poll`.
unfoldable pub poll_check : ℕ → ℕ → OwDev → Due × OwDev
poll_check now then_now d =
    if d.poll_interval == 0
    then (no_polling, d)
    else if leb (second * d.poll_interval) (now - d.last_poll)
    then (due, record d { last_poll = then_now })
    else (not_due, d)

-- `none` is -1; else the milliseconds to the next poll.
unfoldable pub poll_next : ℕ → OwDev → Option ℕ
poll_next now d =
    if d.poll_interval == 0
    then none
    else some (d.poll_interval * 1000 - (now - d.last_poll) / millisecond)

no_text : Text → Bool
no_text [] = true
no_text (c ∷ cs) = false

unfoldable pub display_name : OwDev → Text
unfolding no_text
display_name d = if no_text d.name then d.rom else d.name

-- The files of every device, with the sizes that are shown.
abbrev pub generic : List (Text × ℕ)
generic =
    (codes "id", 3)
    ∷ (codes "status", 1)
    ∷ (codes "name", 1)
    ∷ (codes "info", 1)
    ∷ (codes "poll", 5)
    ∷ []

unfoldable pub attr_of : OwDev → List (Text × ℕ) → Text → ℕ
attr_of d [] path = 0
attr_of d ((s, n) ∷ rows) path =
    let rest = attr_of d rows path in
    if not (occurs s path)
    then rest
    else if same (codes "name") s
    then length (display_name d)
    else n

unfoldable pub fs_attr : OwDev → Text → ℕ
fs_attr d path = attr_of d generic path

unfoldable pub names_of : List (Text × ℕ) → List Text
names_of [] = []
names_of ((s, n) ∷ rows) = s ∷ names_of rows

unfoldable pub fs_dir : List Text
fs_dir = names_of generic

unfoldable pub fs_read : ℕ → OwDev → Text → Reply
fs_read size d path =
    if occurs (codes "name") path
    then text (take (size - 1) (c_str (display_name d)))
    else if occurs (codes "id") path
    then text (decimal d.id)
    else if occurs (codes "poll") path
    then text (decimal d.poll_interval)
    else took 0

-- The answer of a write: the bytes taken, -1, or an exception that leaves the function.
pub data Written : Type 0 where
  wrote : ℕ → Written
  minus_one thrown : Written

unfoldable pub write_name : Text → OwDev → OwDev
write_name buf d = record d { name = take (length buf - 1) buf }

answered : Text → OwDev → Written × OwDev
answered buf d = (wrote (length buf), d)

module _ (long_max : ℕ) where
  -- A number for one of the leaves, and what is done after it.
  write_num : Text → (ℤ → OwDev → OwDev) → (OwDev → Written × OwDev) → OwDev → Written × OwDev
  write_num buf put k d = elim (parse_num long_max buf) [
    | err e ↦ (minus_one, d)
    | ok v ↦ k (put v d)
  ]

  write_poll : Text → Text → OwDev → Written × OwDev
  unfolding write_num answered
  write_poll path buf d =
      if occurs (codes "poll") path
      then write_num buf (λ v x. record x { poll_interval = low_word v }) (answered buf) d
      else (answered buf) d

  write_id : Text → Text → OwDev → Written × OwDev
  unfolding write_num write_poll
  write_id path buf d =
      if occurs (codes "id") path
      then write_num buf (λ v x. record x { id = low_byte v }) (write_poll path buf) d
      else write_poll path buf d

  -- `assign(buf, size - 1)` of an empty write asks for more than a string can hold.
  unfoldable pub fs_write : OwDev → Text → Text → Written × OwDev
  unfolding write_id
  fs_write d path [] = if occurs (codes "name") path then (thrown, d) else write_id path [] d
  fs_write d path (c ∷ cs) =
      write_id path (c ∷ cs) (if occurs (codes "name") path then write_name (c ∷ cs) d else d)
