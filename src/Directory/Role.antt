-- ===== src/Directory/Role.antt =====
-- src/fs_role.cpp: the pins by role, under /role.
pub mod Listed
pub mod Paths
use in10dhost.Prelude.{
  ℕ, ◌+◌, Bool, true, false, not, ◌&&◌, ◌||◌, Option, none, some, List, [], ◌∷◌, ◌++◌, Text, codes,
  length, ◌==◌, if◌then◌else◌, same, drop, get_elem?, set,
}
use in10dhost.Prelude.Find.{cut, starts_with}
use in10dhost.Prelude.Int.{ℤ}
use in10dhost.Numbers.Decimal.{decimal}
use in10dhost.Bus.{Bus}
use in10dhost.Pin.{
  PinRole, no_role, light, socket, fan, heating, blind, button, contact, motion, eq_role,
  pin_role_str, pin_role_parse,
}
use in10dhost.Registry.{Device, code_of_rom}
use in10dhost.Registry as Registry
use in10dhost.Switches.Table.{enoent, enotdir, eisdir, eperm, einval, eio}
use in10dhost.Switches.Handler.{Handler, role_switch_all}
use in10dhost.Ds2408.State.{Dev}
use in10dhost.Ds2408.Switch as Switch
use in10dhost.Ds2408.Switch.{pin_switch}
use in10dhost.Directory.{
  PinInfo, Home, pins, parse_on, FsAnswer, answered, failed, elsewhere, window, shown_size,
  no_slashes, dots, on_off,
}

-- `none` of `split` outside of "role"; `unknown` is -ENOENT.
pub data Level : Type 0 where
  root : Level
  role : PinRole → Level
  file : PinRole → Text → Level
  unknown outside : Level

is_file : PinRole → Text → Level
is_file r [] = unknown
is_file r (c ∷ cs) = elim (cut b'/' (c ∷ cs)) [ none ↦ file r (c ∷ cs) | some az ↦ unknown ]

-- A role by its own name, with the rest of the path, if there is one.
unfoldable pub named : Text → Option Text → Level
unfolding is_file
named name rest = elim (pin_role_parse name) [
  | none ↦ unknown
  | some r ↦
      if eq_role r no_role || not (same name (pin_role_str r))
      then unknown
      else elim rest [ none ↦ role r | some f ↦ is_file r f ]
]

unfoldable pub inner : Text → Level
inner s = elim (cut b'/' s) [ none ↦ named s none | some (a, z) ↦ named a (some z) ]

unfoldable pub split : Text → Level
split path =
    let p = no_slashes path in
    if same p (codes "role")
    then root
    else if not (starts_with (codes "role/") p)
    then outside
    else inner (drop 5 p)

unfoldable pub pin_file : PinInfo → Text
pin_file p = p.rom ++ (b'.' ∷ decimal p.number)

unfoldable pub list_text : List PinInfo → Text
list_text [] = []
list_text (p ∷ ps) =
    pin_file p ++ (9 ∷ on_off p.on ++ (9 ∷ p.pin.room ++ (9 ∷ p.pin.name ++ (10 ∷ list_text ps))))

unfoldable pub count_on : List PinInfo → ℕ
count_on [] = 0
count_on (p ∷ ps) = (if p.output && p.on then 1 else 0) + count_on ps

unfoldable pub find_pin : Text → List PinInfo → Option PinInfo
find_pin f [] = none
find_pin f (p ∷ ps) = if same (pin_file p) f then some p else find_pin f ps

-- The files of a role that has those pins.
unfoldable pub content : List PinInfo → Text → Option Text
content ps f =
    if same f (codes "all")
    then some (decimal (count_on ps))
    else if same f (codes "list")
    then some (list_text ps)
    else elim (find_pin f ps) [ none ↦ none | some p ↦ some ((if p.on then b'1' else b'0') ∷ []) ]

unfoldable pub pin_files : List PinInfo → List Text
pin_files [] = []
pin_files (p ∷ ps) = pin_file p ∷ pin_files ps

abbrev pub role_names : List Text
role_names =
    pin_role_str light
    ∷ pin_role_str socket
    ∷ pin_role_str fan
    ∷ pin_role_str heating
    ∷ pin_role_str blind
    ∷ pin_role_str button
    ∷ pin_role_str contact
    ∷ pin_role_str motion
    ∷ []

-- What the directory of a role names, without the dots.
unfoldable pub role_files : List PinInfo → List Text
role_files ps = codes "all" ∷ codes "list" ∷ pin_files ps

module _ (b : Bus) where
  -- The size of a file, 0 of a directory.
  unfoldable pub attr : Text → Home b → FsAnswer ℕ
  attr path h = elim (split path) [
    | root ↦ answered 0
    | role r ↦ answered 0
    | file r f ↦ elim (content (pins b r h) f) [
      | none ↦ failed enoent
      | some s ↦ answered (shown_size s)
    ]
    | unknown ↦ failed enoent
    | outside ↦ elsewhere
  ]

  unfoldable pub dir : Text → Home b → FsAnswer (List Text)
  dir path h = elim (split path) [
    | root ↦ answered (role_names ++ dots)
    | role r ↦ answered (role_files (pins b r h) ++ dots)
    | file r f ↦ failed enotdir
    | unknown ↦ failed enoent
    | outside ↦ elsewhere
  ]

  unfoldable pub read : Text → ℕ → ℤ → Home b → FsAnswer Text
  read path size offset h = elim (split path) [
    | root ↦ failed eisdir
    | role r ↦ failed eisdir
    | file r f ↦ elim (content (pins b r h) f) [
      | none ↦ failed enoent
      | some s ↦ answered (window size offset s)
    ]
    | unknown ↦ failed enoent
    | outside ↦ elsewhere
  ]

  -- One output of the device at a place.
  switch_at : ℕ → ℕ → Bool → ℕ → Home b → FsAnswer ℕ × Home b
  switch_at i pio wanted size h = elim (get_elem? h.handler.devs i) [
    | none ↦ (failed enoent, h)
    | some d ↦
        let (r, d', s) =
          pin_switch b d pio (if wanted then Switch.on else Switch.off) 0 h.handler.bus in
        (
          if r == 0 then answered size else failed eio,
          record h { handler = record h.handler { devs = set h.handler.devs i d'; bus = s } },
        )
  ]

  write_found : PinInfo → Text → Home b → FsAnswer ℕ × Home b
  unfolding switch_at
  write_found p buf h = if not p.output then (failed eperm, h) else elim (parse_on buf) [
    | none ↦ (failed einval, h)
    | some wanted ↦ elim (Registry.find (code_of_rom p.rom) h.dev_list) [
      | none ↦ (failed enoent, h)
      | some i ↦ switch_at i p.number wanted (length buf) h
    ]
  ]

  write_all_of : PinRole → Text → Home b → FsAnswer ℕ × Home b
  write_all_of r buf h = elim (parse_on buf) [
    | none ↦ (failed einval, h)
    | some wanted ↦
        let (n, h') = role_switch_all b h.handler.by_bus r wanted h.handler in
        (if n == 0 then answered (length buf) else failed eio, record h { handler = h' })
  ]

  unfoldable pub write_file : PinRole → Text → Text → Home b → FsAnswer ℕ × Home b
  unfolding write_found write_all_of
  write_file r f buf h =
      if same f (codes "list")
      then (failed eperm, h)
      else if same f (codes "all")
      then write_all_of r buf h
      else elim (find_pin f (pins b r h)) [
        | none ↦ (failed enoent, h)
        | some p ↦ write_found p buf h
      ]

  -- The bytes taken.
  unfoldable pub write : Text → Text → Home b → FsAnswer ℕ × Home b
  write path buf h = elim (split path) [
    | root ↦ (failed eisdir, h)
    | role r ↦ (failed eisdir, h)
    | file r f ↦ write_file r f buf h
    | unknown ↦ (failed enoent, h)
    | outside ↦ (elsewhere, h)
  ]
