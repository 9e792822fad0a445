-- ===== src/Fs.antt =====
-- src/fs.cpp: the paths of the file system, and which part answers a call.
pub mod Alarm
pub mod Below
pub mod Devices
pub mod Listing
pub mod Once
mod Tests
use in10dhost.Prelude.{
  ℕ, ◌+◌, Bool, true, false, ◌&&◌, ◌||◌, not, Option, none, some, List, [], ◌∷◌, ◌++◌, Text, codes,
  length, take, drop, ltb, leb, ◌==◌, if◌then◌else◌, same, drop_while, drop_end,
}
use in10dhost.Prelude.Find.{starts_with, find_text, occurs, cut}
use in10dhost.Numbers.{starts_digit, read_num, int_max}
use in10dhost.FsTable.{listed}
use in10dhost.Switches.Table.{enoent, eisdir, eperm, einval}
use in10dhost.Directory.{FsAnswer, answered, failed, elsewhere}

abbrev pub is_slash : ℕ → Bool
is_slash c = c == b'/'

abbrev pub root_names : List Text
root_names =
    codes "."
    ∷ codes ".."
    ∷ codes "alarm"
    ∷ codes "uncached"
    ∷ codes "switches"
    ∷ codes "role"
    ∷ codes "rooms"
    ∷ []

abbrev pub settings_names : List Text
settings_names = codes "." ∷ codes ".." ∷ codes "plugins" ∷ []

-- The name of "/settings/plugins/<name>".
name_of : Text → Option Text
name_of [] = none
name_of (c ∷ cs) = elim (cut b'/' (c ∷ cs)) [ none ↦ some (c ∷ cs) | some az ↦ none ]

unfoldable pub plugin_name : Text → Option Text
unfolding name_of
plugin_name path =
    if starts_with (codes "/settings/plugins/") path then name_of (drop 18 path) else none

unfoldable pub rel_path : Text → Text
rel_path path = drop_end is_slash (drop_while is_slash path)

-- "/alarm/x" is "/x".
unfoldable pub alarm_alias : Text → Text
alarm_alias path =
    if not (starts_with (codes "/alarm/") path)
    then path
    else elim (drop 7 path) [ [] ↦ codes "/alarm" | c ∷ cs ↦ b'/' ∷ c ∷ cs ]

unfoldable pub remove_slash : Text → Text
remove_slash s = elim (cut b'/' s) [ none ↦ s | some (a, z) ↦ a ++ z ]

-- Without a slash at its start, and without the first one behind that.
unfoldable pub unslashed : Text → Text
unslashed [] = []
unslashed (c ∷ cs) = if is_slash c then remove_slash cs else remove_slash (c ∷ cs)

-- `thrown` is the exception of `std::stoi`, which nothing catches.
pub data BusPath : Type 0 where
  no_bus thrown : BusPath
  on_bus : ℕ → Text → BusPath

abbrev pub max_bus : ℕ
max_bus = 4

-- The number behind "bus.", and the path without it and the character that follows.
unfoldable pub bus_of : Text → ℕ × Text → BusPath
bus_of before (n, rest) =
    if ltb int_max n
    then thrown
    else if leb max_bus n
    then no_bus
    else on_bus n (before ++ drop 1 rest)

unfoldable pub extract_bus_number : Text → BusPath
unfolding bus_of
extract_bus_number path = elim (find_text (codes "bus.") path) [
  | none ↦ no_bus
  | some i ↦
      let digits = drop (i + 4) path in
      if starts_digit 10 digits then bus_of (take i path) (read_num 10 0 digits) else no_bus
]

-- The ROM, if the path begins with one, and the path that is left. A path that is a ROM stays.
unfoldable pub extract_rom : Text → Option Text × Text
extract_rom path =
    let p = unslashed path in
    let dotted : Bool = elim (find_text (codes ".") p) [ none ↦ false | some i ↦ i == 2 ] in
    if dotted && leb 17 (length p)
    then (some (take 17 p), if ltb 17 (length p) then drop 17 p else p)
    else (none, p)

unfoldable pub extract_subpath : Text → Text → Bool × Text
extract_subpath part path =
    let p = unslashed path in
    if not (occurs part path) then (false, path) else elim (find_text part p) [
      | none ↦ (false, p)
      | some i ↦ (true, take i p ++ drop (i + length part) p)
    ]

-- What the callbacks reach: the plugins, the leaves of `Leaf`, the directories of `Directory`, a device
-- by its ROM, and the switches. A size is that of a file, 0 of a directory.
pub record Parts : Type 1 where
  pub St : Type 0
  pub plugin_attr : Text → St → Option ℕ
  pub plugin_read : Text → ℕ → St → FsAnswer Text × St
  pub plugin_write : Text → Text → St → FsAnswer ℕ × St
  pub plugin_config : Text → St → Option Text
  pub plugin_remove : Text → St → Bool × St
  pub plugin_reload : Option Text → St → St
  pub plugin_add : Text → St → Bool × St
  pub leaf_attr : Text → St → Option ℕ
  pub leaf_open : Text → Bool
  pub leaf_read : Text → ℕ → St → FsAnswer Text × St
  pub leaf_write : Text → Text → St → FsAnswer ℕ × St
  pub pins_attr : Text → St → FsAnswer ℕ
  pub pins_read : Text → ℕ → ℕ → St → FsAnswer Text
  pub pins_write : Text → Text → St → FsAnswer ℕ × St
  pub device_attr : Text → St → Option ℕ
  pub device_open : Text → Text → St → Option (FsAnswer ℕ)
  pub device_read : Text → Text → ℕ → Bool → St → Option (FsAnswer Text × St)
  pub device_write : Text → Text → Text → St → Option (FsAnswer ℕ × St)
  pub switch_attr : Text → St → Option ℕ
  pub switch_open : Text → Bool
  pub switch_read : Text → ℕ → St → FsAnswer Text × St
  pub switch_write : Text → Text → St → FsAnswer ℕ × St

abbrev pub is_file : Option ℕ → Bool
is_file none = false
is_file (some n) = ltb 0 n

-- The path that a failed search for a bus leaves alone; `none` where it throws.
abbrev pub without_bus : Text → BusPath → Option Text
without_bus path no_bus = some path
without_bus path thrown = none
without_bus path (on_bus n rest) = some rest

-- What a plugin's file must not take; `leaf` is whether the path is one of the leaves.
unfoldable pub builtin_taken : Bool → Text → Bool
builtin_taken leaf path =
    let (first, rest) : Text × Option Text = elim (cut b'/' path) [
      | none ↦ (path, none)
      | some (a, z) ↦ (a, some z)
    ] in
    if same first (codes "settings") || same first (codes "status")
    then elim rest [
      | none ↦ true
      | some z ↦
          let second : Text = elim (cut b'/' z) [ none ↦ z | some (a, y) ↦ a ] in
          if same first (codes "settings") && same second (codes "plugins") then true else leaf
    ]
    else listed first root_names
      || starts_with (codes "bus.") first
      || (length first == 17 && starts_with (codes ".") (drop 2 first))

-- `none` as an answer is the exception that ends the daemon.
module _ (t : Parts) where
  open t use {
    St, plugin_attr, plugin_read, plugin_write, plugin_config, plugin_remove, plugin_reload,
    plugin_add, leaf_attr, leaf_open, leaf_read, leaf_write, pins_attr, pins_read, pins_write,
    device_attr, device_open, device_read, device_write, switch_attr, switch_open, switch_read,
    switch_write,
  }

  size_or : Option ℕ → FsAnswer ℕ
  size_or none = failed enoent
  size_or (some n) = answered n

  -- A device, looked for on each bus alike, and then the switches.
  any_attr : Text → St → FsAnswer ℕ
  unfolding size_or
  any_attr path s = elim (device_attr path s) [
    | some n ↦ answered n
    | none ↦ size_or (switch_attr path s)
  ]

  unfoldable pub bus_attr : Text → BusPath → St → Option (FsAnswer ℕ)
  unfolding any_attr
  bus_attr path thrown s = none
  bus_attr path no_bus s = some (any_attr (extract_subpath (codes "uncached") path).1 s)
  bus_attr path (on_bus n []) s = some (answered 0)
  bus_attr path (on_bus n (c ∷ cs)) s = some (size_or (device_attr (c ∷ cs) s))

  unfoldable pub settings_attr : Text → St → Option (FsAnswer ℕ)
  unfolding bus_attr
  settings_attr path s =
      let (found, p) = extract_subpath (codes "settings") path in
      if found && listed p settings_names
      then some (answered 0)
      else bus_attr p (extract_bus_number p) s

  unfoldable pub pins_or_settings : Text → St → Option (FsAnswer ℕ)
  unfolding settings_attr
  pins_or_settings path s = elim (pins_attr path s) [
    | answered n ↦ some (answered n)
    | failed e ↦ some (failed e)
    | elsewhere ↦ settings_attr path s
  ]

  unfoldable pub config_attr : Text → Text → St → Option (FsAnswer ℕ)
  unfolding pins_or_settings
  config_attr p path s = elim (plugin_name p) [
    | some n ↦
        some (elim (plugin_config n s) [ none ↦ failed enoent | some c ↦ answered (length c + 1) ])
    | none ↦ elim (leaf_attr path s) [ some n ↦ some (answered n) | none ↦ pins_or_settings path s ]
  ]

  unfoldable pub getattr_at : Text → St → Option (FsAnswer ℕ)
  unfolding config_attr
  getattr_at p s =
      let path = drop 1 p in
      if same p (codes "/") then some (answered 0) else elim (plugin_attr (rel_path path) s) [
        | some n ↦ some (answered n)
        | none ↦ if listed path root_names then some (answered 0) else config_attr p path s
      ]

  unfoldable pub fs_getattr : Text → St → Option (FsAnswer ℕ)
  unfolding getattr_at
  fs_getattr path_in s = getattr_at (alarm_alias path_in) s

  open_rom : Option Text × Text → St → FsAnswer ℕ
  open_rom (rom, path) s =
      let switches = if switch_open path then answered 0 else failed enoent in
      elim rom [
        | none ↦ switches
        | some r ↦ elim (device_open r path s) [ none ↦ switches | some a ↦ a ]
      ]

  open_pins : Text → Text → St → Option (FsAnswer ℕ)
  unfolding open_rom
  open_pins p path s = elim (pins_attr path s) [
    | answered n ↦ some (if ltb 0 n then answered 0 else failed eisdir)
    | failed e ↦ some (failed e)
    | elsewhere ↦ elim (plugin_name p) [
      | some n ↦ some (answered 0)
      | none ↦ elim (without_bus path (extract_bus_number path)) [
        | none ↦ none
        | some q ↦ some (open_rom (extract_rom (extract_subpath (codes "uncached") q).1) s)
      ]
    ]
  ]

  unfoldable pub open_at : Text → St → Option (FsAnswer ℕ)
  unfolding open_pins
  open_at p s =
      let path = drop 1 p in
      if is_file (plugin_attr path s)
      then some (answered 0)
      else if leaf_open path
      then some (answered 0)
      else open_pins p path s

  unfoldable pub fs_open : Text → St → Option (FsAnswer ℕ)
  unfolding open_at
  fs_open path_in s = open_at (alarm_alias path_in) s

  unfoldable pub read_rom : Bool → ℕ → Option Text × Text → St → FsAnswer Text × St
  read_rom uncached size (rom, path) s = elim rom [
    | none ↦ (failed enoent, s)
    | some r ↦ elim (device_read r path size uncached s) [ none ↦ (failed enoent, s) | some a ↦ a ]
  ]

  unfoldable pub read_busses : Bool × Text → ℕ → St → Option (FsAnswer Text × St)
  unfolding read_rom
  read_busses (uncached, q) size s = elim (without_bus q (extract_bus_number q)) [
    | none ↦ none
    | some r ↦ some (read_rom uncached size (extract_rom r) s)
  ]

  unfoldable pub read_switches : Bool × Text → ℕ → St → Option (FsAnswer Text × St)
  unfolding read_busses
  read_switches (true, p) size s = some (switch_read p size s)
  read_switches (false, p) size s = read_busses (extract_subpath (codes "uncached") p) size s

  unfoldable pub read_device : Text → ℕ → St → Option (FsAnswer Text × St)
  unfolding read_switches
  read_device path size s = read_switches (extract_subpath (codes "switches") path) size s

  read_config : Text → ℕ → St → FsAnswer Text
  read_config name size s = elim (plugin_config name s) [
    | none ↦ failed enoent
    | some c ↦ if ltb size (length c + 1) then failed einval else answered (c ++ 10 ∷ [])
  ]

  unfoldable pub read_leaf : Text → Text → ℕ → St → Option (FsAnswer Text × St)
  unfolding read_config
  read_leaf p path size s =
      let (r, s1) = leaf_read path size s in
      elim r [
        | answered x ↦ some (answered x, s1)
        | failed e ↦ some (failed e, s1)
        | elsewhere ↦ elim (plugin_name p) [
          | some n ↦ some (read_config n size s, s)
          | none ↦ read_device path size s
        ]
      ]

  unfoldable pub read_at : Text → ℕ → ℕ → St → Option (FsAnswer Text × St)
  unfolding read_leaf
  read_at p size offset s =
      let path = drop 1 p in
      if is_file (plugin_attr path s)
      then some (if ltb 0 offset then (answered [], s) else plugin_read path size s)
      else elim (pins_read path size offset s) [
        | answered x ↦ some (answered x, s)
        | failed e ↦ some (failed e, s)
        | elsewhere ↦ read_leaf p path size s
      ]

  unfoldable pub fs_read : Text → ℕ → ℕ → St → Option (FsAnswer Text × St)
  unfolding read_at
  fs_read path_in size offset s = read_at (alarm_alias path_in) size offset s

  -- "rm" takes a plugin out, "reload" loads all of them again.
  command : Text → Text → St → FsAnswer ℕ × St
  command name buf s =
      let cmd = drop_end (λ c. c == 10 || c == 13) buf in
      let (removed, s1) = plugin_remove name s in
      if same cmd (codes "rm")
      then (if removed then answered (length buf) else failed enoent, s1)
      else if same cmd (codes "reload")
      then (answered (length buf), plugin_reload none s)
      else (failed einval, s)

  write_switches : Text → Text → St → FsAnswer ℕ × St
  write_switches path buf s =
      let (found, p) = extract_subpath (codes "switches") path in
      if found then switch_write p buf s else (failed enoent, s)

  unfoldable pub write_device : Text → Text → St → Option (FsAnswer ℕ × St)
  unfolding write_switches
  write_device path buf s = elim (without_bus path (extract_bus_number path)) [
    | none ↦ none
    | some q ↦
        let (rom, r) = extract_rom q in
        some (elim rom [
          | none ↦ write_switches r buf s
          | some x ↦ elim (device_write x r buf s) [ none ↦ write_switches r buf s | some a ↦ a ]
        ])
  ]

  write_pins : Text → Text → Text → St → Option (FsAnswer ℕ × St)
  unfolding command
  write_pins p path buf s =
      let (r, s1) = pins_write path buf s in
      elim r [
        | answered n ↦ some (answered n, s1)
        | failed e ↦ some (failed e, s1)
        | elsewhere ↦ elim (plugin_name p) [
          | some n ↦ some (command n buf s)
          | none ↦ write_device path buf s
        ]
      ]

  unfoldable pub write_at : Text → Text → St → Option (FsAnswer ℕ × St)
  unfolding write_pins
  write_at p buf s =
      let path = drop 1 p in
      let (r, s1) = leaf_write path buf s in
      if is_file (plugin_attr path s) then some (plugin_write path buf s) else elim r [
        | answered n ↦ some (answered n, s1)
        | failed e ↦ some (failed e, s1)
        | elsewhere ↦ write_pins p path buf s
      ]

  unfoldable pub fs_write : Text → Text → St → Option (FsAnswer ℕ × St)
  unfolding write_at
  fs_write path_in buf s = write_at (alarm_alias path_in) buf s

  -- True is a plugin that is loaded, now or already.
  unfoldable pub fs_create : Text → St → FsAnswer ℕ × St
  fs_create path s = elim (plugin_name path) [
    | none ↦ (failed eperm, s)
    | some n ↦
        let (loaded, s1) = plugin_add n s in (if loaded then answered 0 else failed enoent, s1)
  ]

  unfoldable pub fs_unlink : Text → St → FsAnswer ℕ × St
  fs_unlink path s = elim (plugin_name path) [
    | none ↦ (failed eperm, s)
    | some n ↦
        let (removed, s1) = plugin_remove n s in (if removed then answered 0 else failed enoent, s1)
  ]

  unfoldable pub fs_utimens : Text → St → FsAnswer ℕ × St
  fs_utimens path s = elim (plugin_name path) [
    | none ↦ (answered 0, s)
    | some n ↦ (answered 0, plugin_reload (some n) s)
  ]
