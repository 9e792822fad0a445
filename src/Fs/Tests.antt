-- ===== src/Fs/Tests.antt =====
-- A house with one thermometer, and no plugin.
use in10dhost.Prelude.{
  ℕ, ◌+◌, ◌≡◌, refl, List, ◌==◌, [], Bool, true, false, Option, none, some, ◌∷◌, ◌++◌, Text, codes,
  arith, same, if◌then◌else◌,
}
use in10dhost.Prelude.Find.{starts_with, occurs, cut, find_text}
use in10dhost.Numbers.{int_max, starts_digit, digit_of, read_num}
use in10dhost.Numbers.Decimal.{decimal}
use in10dhost.Switches.Table.{Errno, enoent, eperm}
use in10dhost.Directory.{FsAnswer, answered, failed, elsewhere}
use in10dhost.Fs.{
  Parts, extract_subpath, alarm_alias, extract_bus_number, bus_of, fs_getattr, fs_open, fs_read,
  fs_write, fs_create, fs_unlink,
}
use in10dhost.FsTable.{listed}
use in10dhost.Fs.Listing.{Places, fs_readdir, readdir_builtin}
use in10dhost.Fs.Once.{distinct, fs_readdir-once}
use in10dhost.Fs.Alarm.{alarm-same}
use in10dhost.Fs.Below.{read-below}
use in10dhost.Fs.Devices.{bus_number-thrown}

abbrev rom : Text
rom = codes "28.0200FDFF667762"

abbrev measured : Text → Text → ℕ → Bool → ℕ → Option (FsAnswer Text × ℕ)
measured r path size uncached s =
    if same r rom
    then some
        (if same path (codes "temperature") then answered (codes "21.50") else failed enoent, s + 1)
    else none

-- The state counts the reads.
abbrev house : Parts
house = record {
  St = ℕ;
  plugin_attr = λ path s. none;
  plugin_read = λ path size s. (failed enoent, s);
  plugin_write = λ path buf s. (failed enoent, s);
  plugin_config = λ name s. none;
  plugin_remove = λ name s. (false, s);
  plugin_reload = λ name s. s;
  plugin_add = λ name s. (false, s);
  leaf_attr = λ path s. none;
  leaf_open = λ path. false;
  leaf_read = λ path size s. (elsewhere, s);
  leaf_write = λ path buf s. (elsewhere, s);
  pins_attr = λ path s. elsewhere;
  pins_read = λ path size offset s. elsewhere;
  pins_write = λ path buf s. (elsewhere, s);
  device_attr = λ path s. if same path (rom ++ codes "/temperature") then some 6 else none;
  device_open = λ r path s. if same r rom then some (answered 0) else none;
  device_read = measured;
  device_write = λ r path buf s. none;
  switch_attr = λ path s. none;
  switch_open = λ path. false;
  switch_read = λ path size s. (failed enoent, s);
  switch_write = λ path buf s. (failed enoent, s);
}

alarm-same_example :
    (fs_getattr house (codes "/alarm/bus.0/28.0200FDFF667762/temperature") 3
      ≡ fs_getattr house (codes "/bus.0/28.0200FDFF667762/temperature") 3)
    × (fs_open house (codes "/alarm/bus.0/28.0200FDFF667762/temperature") 3
        ≡ fs_open house (codes "/bus.0/28.0200FDFF667762/temperature") 3)
    × (fs_read house (codes "/alarm/bus.0/28.0200FDFF667762/temperature") 4096 0 3
        ≡ fs_read house (codes "/bus.0/28.0200FDFF667762/temperature") 4096 0 3)
    × (fs_write house (codes "/alarm/bus.0/28.0200FDFF667762/temperature") (codes "1") 3
        ≡ fs_write house (codes "/bus.0/28.0200FDFF667762/temperature") (codes "1") 3)
    × (fs_create house (codes "/alarm/bus.0/28.0200FDFF667762/temperature") 3 ≡ (failed eperm, 3))
    × (fs_unlink house (codes "/alarm/bus.0/28.0200FDFF667762/temperature") 3 ≡ (failed eperm, 3))
unfolding starts_with
alarm-same_example =
    alarm-same house b'b' 4096 0 (codes "us.0/28.0200FDFF667762/temperature") (codes "1") 3 refl

bus_number-thrown_example : fs_getattr house (codes "/bus." ++ decimal (int_max + 1)) 0 ≡ none
bus_number-thrown_example = bus_number-thrown house (int_max + 1) 0 (omega arith) refl refl refl

read-below_example :
    fs_read house
      (codes "/bus." ++ (decimal 0 ++ b'/' ∷ (rom ++ b'/' ∷ codes "temperature")))
      4096
      0
      3
    ≡ some (answered (codes "21.50"), 4)
unfolding cut occurs starts_with same
read-below_example =
    read-below house 0 4096 0 b'2' b'8' (codes "0200FDFF667762") b't' (codes "emperature") 3
      (answered (codes "21.50"), 4) (omega arith) refl refl refl refl refl refl refl refl refl

-- The thermometer's bus, and a plugin with a file in the directory of the bus.
abbrev places : Places
places = record {
  St = ℕ;
  pin_names = λ path s. elsewhere;
  search_all = λ s. s + 1;
  on_bus_devices = λ bus s. if bus == 0 then (rom, false) ∷ [] else [];
  leaf_names = λ path s. [];
  plugin_names = λ s. [];
  switch_names = λ path s. [];
  device_names = λ r path s. none;
  plugin_files = λ path s. codes "heating" ∷ rom ∷ [];
}

bus_listing : readdir_builtin places (codes "/bus.0") 3 ≡ some (none, rom ∷ [], 3)
unfolding readdir_builtin extract_subpath occurs alarm_alias starts_with same extract_bus_number
    find_text starts_digit digit_of read_num bus_of
bus_listing = refl

fs_readdir-once_example :
    (r : Option Errno × List Text × ℕ) × (fs_readdir places (codes "/bus.0") 3 ≡ some r)
    × (distinct r.1 ≡ true)
    × ((n : Text) → listed n (codes "heating" ∷ rom ∷ []) ≡ true → listed n r.1 ≡ true)
fs_readdir-once_example = fs_readdir-once places (codes "/bus.0") 3 3 none (rom ∷ []) bus_listing
