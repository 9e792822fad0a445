-- ===== src/Fs/Listing.antt =====
-- src/fs.cpp: the listing of a directory.
use in10dhost.Prelude.{
  ℕ, zero, suc, ◌+◌, Bool, true, false, not, ◌&&◌, Option, none, some, List, [], ◌∷◌, ◌++◌, Text,
  codes, length, drop, same, ◌==◌, if◌then◌else◌,
}
use in10dhost.Numbers.Decimal.{decimal}
use in10dhost.FsTable.{listed}
use in10dhost.Switches.Table.{Errno, enoent}
use in10dhost.Directory.{FsAnswer, answered, failed, elsewhere}
use in10dhost.Fs.{
  BusPath, no_bus, thrown, on_bus, max_bus, extract_bus_number, extract_subpath, extract_rom,
  alarm_alias, rel_path, root_names, settings_names,
}

-- What a listing reaches. A device on a bus is its ROM and whether it is in alarm.
pub record Places : Type 1 where
  pub St : Type 0
  pub pin_names : Text → St → FsAnswer (List Text)
  pub search_all : St → St
  pub on_bus_devices : ℕ → St → List (Text × Bool)
  pub leaf_names : Text → St → List Text
  pub plugin_names : St → List Text
  pub switch_names : Text → St → List Text
  pub device_names : Text → Text → St → Option (List Text)
  pub plugin_files : Text → St → List Text

abbrev pub both_dots : List Text
both_dots = codes "." ∷ codes ".." ∷ []

abbrev pub dev_names : Bool → List (Text × Bool) → List Text
dev_names alarm [] = []
dev_names alarm ((rom, alarms) ∷ ds) =
    let rest = dev_names alarm ds in if alarm && not alarms then rest else rom ∷ rest

abbrev pub bus_names : ℕ → ℕ → List Text
bus_names zero i = []
bus_names (suc left) i = (codes "bus." ++ decimal i) ∷ bus_names left (i + 1)

-- A name is passed on once.
abbrev pub dir_fill : List Text → Text → List Text
dir_fill seen n = if listed n seen then seen else seen ++ n ∷ []

unfoldable pub fill_all : List Text → List Text → List Text
fill_all seen [] = seen
fill_all seen (n ∷ ns) = fill_all (dir_fill seen n) ns

-- An error or none, and the names that were filled in.
module _ (d : Places) where
  open d use {
    St, pin_names, search_all, on_bus_devices, leaf_names, plugin_names, switch_names, device_names,
    plugin_files,
  }

  devs_from : ℕ → ℕ → Bool → St → List Text
  devs_from zero bus alarm s = []
  devs_from (suc left) bus alarm s =
      dev_names alarm (on_bus_devices bus s) ++ devs_from left (bus + 1) alarm s

  unfoldable pub fs_dir_devs : Bool → St → List Text
  unfolding devs_from
  fs_dir_devs alarm s = devs_from max_bus 0 alarm s

  device_dir : List Text → Text → St → Option Errno × List Text × St
  device_dir names path s =
      let (rom, p) = extract_rom path in
      elim rom [
        | none ↦ (some enoent, names, s)
        | some r ↦ elim (device_names r p s) [
          | none ↦ (some enoent, names, s)
          | some ns ↦ (none, names ++ ns, s)
        ]
      ]

  -- Nothing is left of a path that is a bus.
  bus_dir : List Text → Text → BusPath → St → Option (Option Errno × List Text × St)
  unfolding device_dir
  bus_dir names path thrown s = none
  bus_dir names [] no_bus s = some (none, names, s)
  bus_dir names (c ∷ cs) no_bus s = some (device_dir names (c ∷ cs) s)
  bus_dir names path (on_bus n []) s = some (none, names ++ dev_names false (on_bus_devices n s), s)
  bus_dir names path (on_bus n (c ∷ cs)) s = some (device_dir names (c ∷ cs) s)

  place_dir : List Text → Text → Text → St → Option (Option Errno × List Text × St)
  unfolding bus_dir
  place_dir names p path s =
      if same p (codes "/alarm")
      then some (none, names ++ fs_dir_devs true s, s)
      else if same p (codes "/")
      then some (
        none,
        names ++ (bus_names max_bus 0 ++ (fs_dir_devs false s ++ (root_names ++ leaf_names [] s))),
        s,
      )
      else if same p (codes "/settings")
      then some (none, names ++ (settings_names ++ leaf_names (codes "settings") s), s)
      else if same p (codes "/settings/plugins")
      then some (none, names ++ (plugin_names s ++ both_dots), s)
      else if same p (codes "/status")
      then some (none, names ++ (leaf_names (codes "status") s ++ both_dots), s)
      else if same p (codes "/switches")
      then some (none, names ++ (switch_names path s ++ both_dots), s)
      else bus_dir names path (extract_bus_number path) s

  -- The listing of /uncached searches all busses first.
  uncached_dir : Text → Bool × Text → St → Option (Option Errno × List Text × St)
  unfolding place_dir
  uncached_dir p (uncached, path) s =
      if uncached && length path == 0
      then place_dir (fs_dir_devs false (search_all s)) p path (search_all s)
      else place_dir [] p path s

  unfoldable pub readdir_builtin : Text → St → Option (Option Errno × List Text × St)
  unfolding uncached_dir
  readdir_builtin path_in s =
      let p = alarm_alias path_in in
      let path = drop 1 p in
      elim (pin_names path s) [
        | answered ns ↦ some (none, ns, s)
        | failed e ↦ some (some e, [], s)
        | elsewhere ↦ uncached_dir p (extract_subpath (codes "uncached") path) s
      ]

  -- A directory that only plugins make up is none of the daemon's.
  unfoldable pub with_plugins :
      List Text → Option Errno × List Text × St → Option Errno × List Text × St
  with_plugins [] (e, names, s) = (e, fill_all [] names, s)
  with_plugins (f ∷ fs) (none, names, s) = (none, fill_all [] (names ++ f ∷ fs), s)
  with_plugins (f ∷ fs) (some e, names, s) = (none, fill_all [] (names ++ (both_dots ++ f ∷ fs)), s)

  unfoldable pub fs_readdir : Text → St → Option (Option Errno × List Text × St)
  unfolding with_plugins
  fs_readdir path_in s = elim (readdir_builtin path_in s) [
    | none ↦ none
    | some (e, names, s1) ↦
        some (with_plugins (plugin_files (rel_path (alarm_alias path_in)) s1) (e, names, s1))
  ]
