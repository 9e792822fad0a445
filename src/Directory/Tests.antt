-- ===== src/Directory/Tests.antt =====
-- A house with one lamp.
use in10dhost.Prelude.{
  ◌≡◌, ◌≢◌, refl, true, false, [], ◌∷◌, Text, codes, all, same, drop_end, if◌then◌else◌,
}
use in10dhost.Prelude.Find.{cut, starts_with}
use in10dhost.Prelude.Int.{pos}
use in10dhost.Pin.{light, no_role, room_parse}
use in10dhost.Switches.Handler.{is_dark}
use in10dhost.Ds2408.Tests.{dev}
use in10dhost.Ds2408.Confirming.{confirming}
use in10dhost.OwDev.{OwDev, ds_running}
use in10dhost.Directory.{Home, answered, window, shown_size}
use in10dhost.Directory.Role as Role
use in10dhost.Directory.Role.{
  role_files, pin_files, pin_file, content, find_pin, count_on, list_text,
}
use in10dhost.Directory.Role.Paths.{role_path}
use in10dhost.Directory.Role.Listed.{read-listed}
use in10dhost.Directory.Room as Room
use in10dhost.Directory.Room.{dark, file}
use in10dhost.Directory.Room.Dark.{dark_written, digit}

abbrev base : OwDev
base = record {
  rom = codes "29.0700000000000F";
  rom_code = 0x290700000000000F;
  kind = codes "ds2408";
  name = [];
  addr = dev.addr;
  id = 7;
  bus = 0;
  state = ds_running;
  poll_interval = 0;
  last_poll = 0;
}

abbrev home : Home confirming
home = record {
  handler = record {
    switches = [];
    timers = [];
    mode = 8;
    dark = false;
    room_dark = [];
    cur_latch = 0;
    press_time = 0;
    devs = dev ∷ [];
    by_bus = 0 ∷ [];
    bus = ([], 0);
  };
  bases = base ∷ [];
  dev_list = record { rom_code = 0x290700000000000F; dev = 0 } ∷ [];
}

light-ne : light ≢ no_role
light-ne e = cc e

read-listed_example :
    (t : Text) × (Role.read confirming (role_path light (codes "list")) 4096 (pos 0) home
      ≡ answered (window 4096 (pos 0) t))
    × (Role.attr confirming (role_path light (codes "list")) home ≡ answered (shown_size t))
unfolding cut role_files
read-listed_example =
    read-listed confirming home light 1 b'l' 4096 (codes "ist") (pos 0) light-ne refl refl

hall_path : Room.split (codes "rooms/hall/dark") ≡ file (codes "hall") dark
unfolding Room.split Room.inner Room.named cut starts_with same room_parse drop_end
hall_path = refl

dark_written_example :
    ((Room.write confirming (codes "rooms/hall/dark") (digit true ∷ 10 ∷ []) home).0 ≡ answered 2)
    × (Room.read confirming
          (codes "rooms/hall/dark")
          2
          (pos 0)
          (Room.write confirming (codes "rooms/hall/dark") (digit true ∷ 10 ∷ []) home).1
        ≡ answered (digit true ∷ 10 ∷ []))
    × ((q : Text)
        → is_dark confirming q
            (Room.write confirming (codes "rooms/hall/dark") (digit true ∷ 10 ∷ []) home).1.handler
          ≡ (if same q (codes "hall") then true else is_dark confirming q home.handler))
unfolding all
dark_written_example =
    dark_written confirming home (codes "rooms/hall/dark") b'h' (codes "all") (10 ∷ []) true
      hall_path refl
