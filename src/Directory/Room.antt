-- ===== src/Directory/Room.antt =====
-- src/fs_room.cpp: the pins by room and the rooms' dark flags, under /rooms.
pub mod Dark
use in10dhost.Prelude.{
  ℕ, ◌+◌, Bool, true, false, not, ◌&&◌, ◌||◌, Option, none, some, List, [], ◌∷◌, ◌++◌, Text, codes,
  length, if◌then◌else◌, same, drop,
}
use in10dhost.Prelude.Find.{cut, starts_with}
use in10dhost.Prelude.Int.{ℤ}
use in10dhost.Numbers.Decimal.{decimal}
use in10dhost.Bus.{Bus}
use in10dhost.Pin.{pin_role_str, room_parse}
use in10dhost.Switches.Table.{enoent, enotdir, eisdir, eperm, einval}
use in10dhost.Switches.Handler.{Handler, is_dark}
use in10dhost.Switches.Leaves.{dark_set, dark_clear}
use in10dhost.Ds2408.Settings.{pin_input}
use in10dhost.Directory.{
  PinInfo, Home, room_pins, rooms, FsAnswer, answered, failed, elsewhere, window, shown_size,
  no_slashes, dots, on_off,
}
use in10dhost.Directory.Role.{pin_file}

pub data RoomFile : Type 0 where
  dark list : RoomFile

pub data Level : Type 0 where
  root : Level
  room : Text → Level
  file : Text → RoomFile → Level
  unknown outside : Level

file_of : Text → Text → Level
file_of r f =
    if same f (codes "dark")
    then file r dark
    else if same f (codes "list")
    then file r list
    else unknown

-- A room by its name, with the rest of the path, if there is one.
unfoldable pub named : Option Text → Option Text → Level
unfolding file_of
named none rest = unknown
named (some []) rest = unknown
named (some (c ∷ cs)) none = room (c ∷ cs)
named (some (c ∷ cs)) (some f) = file_of (c ∷ cs) f

unfoldable pub inner : Text → Level
inner s = elim (cut b'/' s) [
  | none ↦ named (room_parse s) none
  | some (a, z) ↦ named (room_parse a) (some z)
]

unfoldable pub split : Text → Level
split path =
    let p = no_slashes path in
    if same p (codes "rooms")
    then root
    else if not (starts_with (codes "rooms/") p)
    then outside
    else inner (drop 6 p)

unfoldable pub list_text : List PinInfo → Text
list_text [] = []
list_text (p ∷ ps) =
    pin_file p
    ++ (9 ∷ pin_role_str p.pin.role ++ (9 ∷ on_off p.on ++ (9 ∷ p.pin.name ++ (10 ∷ list_text ps))))

module _ (b : Bus) where
  unfoldable pub content : Text → RoomFile → Home b → Text
  content r dark h = (if is_dark b r h.handler then b'1' else b'0') ∷ 10 ∷ []
  content r list h = list_text (room_pins b r h)

  -- The size of a file, 0 of a directory.
  unfoldable pub attr : Text → Home b → FsAnswer ℕ
  attr path h = elim (split path) [
    | root ↦ answered 0
    | room r ↦ answered 0
    | file r f ↦ answered (shown_size (content r f h))
    | unknown ↦ failed enoent
    | outside ↦ elsewhere
  ]

  unfoldable pub dir : Text → Home b → FsAnswer (List Text)
  dir path h = elim (split path) [
    | root ↦ answered (rooms b h ++ dots)
    | room r ↦ answered (codes "dark" ∷ codes "list" ∷ dots)
    | file r f ↦ failed enotdir
    | unknown ↦ failed enoent
    | outside ↦ elsewhere
  ]

  unfoldable pub read : Text → ℕ → ℤ → Home b → FsAnswer Text
  read path size offset h = elim (split path) [
    | root ↦ failed eisdir
    | room r ↦ failed eisdir
    | file r f ↦ answered (window size offset (content r f h))
    | unknown ↦ failed enoent
    | outside ↦ elsewhere
  ]

  -- 0 or 1 sets the flag of the room, "auto" or nothing takes it away.
  unfoldable pub write_dark : Text → Text → Home b → FsAnswer ℕ × Home b
  write_dark r buf h =
      let s = pin_input buf in
      let one = same s (codes "1") in
      if same s (codes "0") || one
      then (answered (length buf), record h { handler = dark_set b one r h.handler })
      else if same s [] || same s (codes "auto")
      then (answered (length buf), record h { handler = dark_clear b r h.handler })
      else (failed einval, h)

  -- The bytes taken.
  unfoldable pub write : Text → Text → Home b → FsAnswer ℕ × Home b
  write path buf h = elim (split path) [
    | root ↦ (failed eisdir, h)
    | room r ↦ (failed eisdir, h)
    | file r f ↦ elim f [ dark ↦ write_dark r buf h | list ↦ (failed eperm, h) ]
    | unknown ↦ (failed enoent, h)
    | outside ↦ (elsewhere, h)
  ]
