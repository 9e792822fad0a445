-- ===== src/Registry/Tests.antt =====
-- Two devices by their codes.
use in10dhost.Prelude.{◌≡◌, ◌∷◌, [], some, arith}
use in10dhost.Prelude.{codes}
use in10dhost.OwDev.{OwDev, ds_created}
use in10dhost.Registry.Updated.{IsIndexed, update_data-IsIndexed}
use in10dhost.Registry.{Registry, update_data, Device, find, add_device, lower_bound, is_at}
use in10dhost.Registry.Sorted.{IsSorted, find-add_device}

abbrev hall : Device
hall = record { rom_code = 0x290200FDFF6677F8; dev = 0 }

abbrev attic : Device
attic = record { rom_code = 0x280501FAFE6677C6; dev = 1 }

hall-IsSorted : IsSorted 0 (hall ∷ [])
hall-IsSorted = (omega arith, tt)

find-add_device_example : find 0x280501FAFE6677C6 (add_device 30 attic (hall ∷ [])) ≡ some 1
unfolding find lower_bound is_at
find-add_device_example =
    find-add_device 30 0x280501FAFE6677C6 attic (hall ∷ []) hall-IsSorted (omega arith)

abbrev lamp : OwDev
lamp = record {
  rom = codes "29.0200FDFF6677F8";
  rom_code = 0x290200FDFF6677F8;
  kind = codes "ds2408";
  name = [];
  addr = 0x29 ∷ 0x02 ∷ 0x00 ∷ 0xFD ∷ 0xFF ∷ 0x66 ∷ 0x77 ∷ 0xF8 ∷ [];
  id = 2;
  bus = 0;
  state = ds_created;
  poll_interval = 0;
  last_poll = 0;
}

-- A configuration that names the lamp twice.
abbrev loaded : Registry
loaded = record {
  devices = lamp ∷ record lamp { rom_code = 0x280501FAFE6677C6; bus = 1 } ∷ lamp ∷ [];
  dev_list = [];
  busses = [];
}

update_data-IsIndexed_example : IsIndexed (update_data 30 4 loaded)
update_data-IsIndexed_example = update_data-IsIndexed 30 4 loaded (omega arith)
