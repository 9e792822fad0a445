-- ===== src/Registry.antt =====
-- src/ow_devices.cpp: the devices that are known, the list of them by their ROM codes, and the times of
-- the polls. A device is known by its place in `cache.devices`.
pub mod Sorted
pub mod Updated
mod Tests
use in10dhost.Prelude.{
  ℕ, zero, suc, ◌+◌, ◌-◌, ◌*◌, ◌/◌, ◌%◌, ◌^◌, Bool, true, false, ◌&&◌, ◌||◌, not, Option, none,
  some, List, [], ◌∷◌, ◌++◌, Text, codes, length, take, drop, get_or, get_elem?, set, ltb, leb,
  ◌==◌, min, if◌then◌else◌, same,
}
use in10dhost.Prelude.Find.{find_text}
use in10dhost.Numbers.{read_num}
use in10dhost.OwDev.{OwDev, canonical_rom, update, init, poll_next, ds_created, second, millisecond}

-- `Device` of include/ow_devices.h.
pub record Device : Type 0 where
  pub rom_code : ℕ
  pub dev : ℕ

no_device : Device
no_device = record { rom_code = 0; dev = 0 }

-- `std::lower_bound` by the ROM code: the first place whose code is not less.
unfoldable pub lower_bound : ℕ → List Device → ℕ
lower_bound code [] = 0
lower_bound code (d ∷ ds) =
    let rest = lower_bound code ds in if ltb d.rom_code code then suc rest else 0

-- Whether the place is one, with that code.
unfoldable pub is_at : ℕ → ℕ → List Device → Bool
unfolding no_device
is_at i code ds = ltb i (length ds) && (get_or ds i no_device).rom_code == code

-- `dev_list` up to `deviceCount`; `room` is the size of the array.
unfoldable pub add_device : ℕ → Device → List Device → List Device
add_device room d ds =
    let i = lower_bound d.rom_code ds in
    if is_at i d.rom_code ds
    then ds
    else if leb room (length ds)
    then ds
    else take i ds ++ (d ∷ drop i ds)

unfoldable pub find : ℕ → List Device → Option ℕ
unfolding no_device
find code ds =
    let i = lower_bound code ds in
    if is_at i code ds then some (get_or ds i no_device).dev else none

-- `find(rom)`: the code of the text, without the dot behind the family.
unfoldable pub code_of_rom : Text → ℕ
code_of_rom rom =
    let dotted : Bool = elim (find_text (b'.' ∷ []) rom) [ none ↦ false | some i ↦ i == 2 ] in
    (read_num 16 0 (if dotted then take 2 rom ++ drop 3 rom else rom)).0

-- The devices, the list by code, and the devices of each bus.
pub record Registry : Type 0 where
  pub devices : List OwDev
  pub dev_list : List Device
  pub busses : List (List ℕ)

-- The family code of a device that there is a class for, and its type.
unfoldable pub kind_of : Text → Option Text
kind_of family =
    if same family (codes "29")
    then some (codes "ds2408")
    else if same family (codes "28")
    then some (codes "ds1820")
    else if same family (codes "20")
    then some (codes "ds2450")
    else if same family (codes "AD")
    then some (codes "ard_i2c")
    else none

-- A device as its class makes it from its ROM.
unfoldable pub made : Text → Text → OwDev
made kind rom = update (record {
  rom = rom;
  rom_code = 0;
  kind = kind;
  name = [];
  addr = [];
  id = 0;
  bus = 0;
  state = ds_created;
  poll_interval = 0;
  last_poll = 0;
})

unfoldable pub update_device : ℕ → ℕ → Text → Registry → Registry
update_device room bus given r =
    let rom = canonical_rom given in
    elim (find (code_of_rom rom) r.dev_list) [
      | some i ↦ r
      | none ↦ elim (kind_of (take 2 rom)) [
        | none ↦ r
        | some kind ↦
            let d = init (record (made kind rom) { bus = bus }) in
            record r {
              devices = r.devices ++ d ∷ [];
              dev_list =
                  add_device room (record { rom_code = d.rom_code; dev = length r.devices })
                    r.dev_list;
            }
      ]
    ]

-- The loop of `update_data`: a device whose code is there already is taken out.
-- A bus that there is none of is out of bounds in the source; `set` then leaves the list as it is.
unfoldable pub register : ℕ → List OwDev → Registry → Registry
register room [] r = r
register room (d ∷ ds) r = register room ds (elim (find d.rom_code r.dev_list) [
  | some i ↦ r
  | none ↦
      let i = length r.devices in
      record r {
        devices = r.devices ++ d ∷ [];
        dev_list = add_device room (record { rom_code = d.rom_code; dev = i }) r.dev_list;
        busses = set r.busses d.bus (get_or r.busses d.bus [] ++ i ∷ []);
      }
])

no_busses : ℕ → List (List ℕ)
no_busses zero = []
no_busses (suc n) = [] ∷ no_busses n

unfoldable pub update_data : ℕ → ℕ → Registry → Registry
unfolding no_busses
update_data room max_bus r =
    register room r.devices (record { devices = []; dev_list = []; busses = no_busses max_bus })

same_bytes : List ℕ → List ℕ → Bool
same_bytes [] [] = true
same_bytes [] (y ∷ ys) = false
same_bytes (x ∷ xs) [] = false
same_bytes (x ∷ xs) (y ∷ ys) = x == y && same_bytes xs ys

-- The other ROMs of the same chip: all but the family and the checksum are the same.
unfoldable pub is_twin : OwDev → OwDev → Bool
unfolding same_bytes
is_twin d e =
    not (get_or e.addr 0 0 == get_or d.addr 0 0)
    && same_bytes (take 6 (drop 1 e.addr)) (take 6 (drop 1 d.addr))

unfoldable pub twins_from : ℕ → OwDev → List Device → List OwDev → List ℕ
twins_from self d [] devices = []
twins_from self d (x ∷ xs) devices =
    let rest = twins_from self d xs devices in
    elim (get_elem? devices x.dev) [
      | none ↦ rest
      | some e ↦ if not (x.dev == self) && is_twin d e then x.dev ∷ rest else rest
    ]

-- The milliseconds to the next poll of a device, at most 60000: none less than `sec` gives `sec`.
unfoldable pub next_poll : ℕ → List OwDev → ℕ → ℕ
next_poll now [] best = best
next_poll now (d ∷ ds) best = elim (poll_next now d) [
  | none ↦ next_poll now ds best
  | some n ↦ if n == 0 then 0 else next_poll now ds (if ltb n best then n else best)
]

-- `poll_time`, in milliseconds; `last_sec` is when the second's work was done last.
unfoldable pub poll_time : ℕ → ℕ → List OwDev → ℕ
poll_time now last_sec ds =
    let elapsed = (now - last_sec) / millisecond in
    let next = next_poll now ds 60000 in
    if leb 1000 elapsed
    then 0
    else if next == 60000
    then 1000 - elapsed
    else min next (1000 - elapsed)

-- `save_poll`: whether the configuration is to be saved now, and the time of the last one.
unfoldable pub save_poll : ℕ → ℕ → ℕ → Bool × ℕ
save_poll interval now last =
    if interval == 0
    then (false, last)
    else if ltb (now - last) (interval * second)
    then (false, last)
    else (true, now)
