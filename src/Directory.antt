-- ===== src/Directory.antt =====
-- The pins across all devices (`pins`, `room_pins` and `rooms` of src/ow_devices.cpp), and what the
-- directories of src/fs_role.cpp and src/fs_room.cpp share.
pub mod Role
pub mod Room
pub mod Window
mod Tests
use in10dhost.Prelude.{
  ℕ, Bool, true, false, not, ◌&&◌, ◌||◌, Option, none, some, List, [], ◌∷◌, ◌++◌, Text, codes,
  length, leb, ◌==◌, if◌then◌else◌, same, take, drop, drop_end, get_elem?,
}
use in10dhost.Prelude.Find.{cut}
use in10dhost.Prelude.Int.{ℤ, pos, negsuc}
use in10dhost.Prelude.Bits.{first8, test_bit}
use in10dhost.Bus.{Bus}
use in10dhost.Pin.{Pin, PinRole, no_role, eq_role}
use in10dhost.OwDev.{OwDev}
use in10dhost.Registry.{Device}
use in10dhost.Switches.Table.{Errno}
use in10dhost.Switches.Handler.{Handler}
use in10dhost.Switches.Leaves.{comes_before, dark_rooms}
use in10dhost.Ds2408.State.{Dev, pin_of, pin_label, pin_is_on, pin_is_output}
use in10dhost.Ds2408.Settings.{pin_input}

-- `PinInfo` of include/interface/devices.h.
pub record PinInfo : Type 0 where
  pub pin : Pin
  pub rom : Text
  pub number : ℕ
  pub output : Bool
  pub on : Bool

unfoldable pub pin_info : OwDev → Dev → ℕ → PinInfo
pin_info o d i = record {
  pin = record (pin_of d i) { name = pin_label d i };
  rom = o.rom;
  number = i;
  output = pin_is_output d i;
  on = if pin_is_output d i then pin_is_on d i else test_bit d.regs.ls i;
}

-- The handler of the switches with the devices it knows, their bases in the same order, and `dev_list`
-- as far as it names a ds2408: `dev` is the place in `devs`.
pub record Home (b : Bus) : Type 0 where
  pub handler : Handler b
  pub bases : List OwDev
  pub dev_list : List Device

unfoldable pub pins_get : (Pin → Bool) → OwDev → Dev → List ℕ → List PinInfo
pins_get wanted o d [] = []
pins_get wanted o d (i ∷ is) =
    let rest = pins_get wanted o d is in if wanted (pin_of d i) then pin_info o d i ∷ rest else rest

-- `pins_get`: every pin with a role, or with that one.
unfoldable pub has_role : PinRole → Pin → Bool
has_role r p = not (eq_role p.role no_role || (not (eq_role r no_role) && not (eq_role p.role r)))

no_text : Text → Bool
no_text [] = true
no_text (c ∷ cs) = false

-- `room_pins_get`: every pin in a room, or in that one.
unfoldable pub in_room : Text → Pin → Bool
unfolding no_text
in_room r p = not (no_text p.room || (not (no_text r) && not (same p.room r)))

-- "0" or "1" with line ends and NULs behind it.
unfoldable pub parse_on : Text → Option Bool
parse_on buf =
    let s = pin_input buf in
    if same s (b'0' ∷ []) then some false else if same s (b'1' ∷ []) then some true else none

-- An answer, an error, or NOT_FOUND for a path outside of the directory.
pub data FsAnswer {ℓ} (A : Type ℓ) : Type ℓ where
  answered : A → FsAnswer A
  failed : Errno → FsAnswer A
  elsewhere : FsAnswer A

-- What one read returns of a content.
unfoldable pub window : ℕ → ℤ → Text → Text
window size (negsuc n) s = []
window size (pos offset) s = if leb (length s) offset then [] else take size (drop offset s)

-- The size that is shown: an empty list is still a file.
unfoldable pub shown_size : Text → ℕ
shown_size [] = 1
shown_size (c ∷ cs) = length (c ∷ cs)

-- The path without the slashes at its end.
abbrev pub no_slashes : Text → Text
no_slashes path = drop_end (λ c. c == b'/') path

abbrev pub dots : List Text
dots = codes "." ∷ codes ".." ∷ []

abbrev pub on_off : Bool → Text
on_off on = if on then codes "on" else codes "off"

-- A `std::set` of texts.
unfoldable pub insert : Text → List Text → List Text
insert s [] = s ∷ []
insert s (x ∷ xs) =
    let rest = insert s xs in
    if same s x then x ∷ xs else if comes_before s x then s ∷ x ∷ xs else x ∷ rest

unfoldable pub insert_all : List Text → List Text → List Text
insert_all [] all_of = all_of
insert_all (s ∷ ss) all_of = insert_all ss (insert s all_of)

unfoldable pub rooms_of : List PinInfo → List Text
rooms_of [] = []
rooms_of (p ∷ ps) = p.pin.room ∷ rooms_of ps

module _ (b : Bus) where
  -- Bus by bus, device by device.
  unfoldable pub pins_from : (Pin → Bool) → List ℕ → Home b → List PinInfo
  pins_from wanted [] h = []
  pins_from wanted (i ∷ is) h =
      elim (get_elem? h.bases i) [
        | none ↦ []
        | some o ↦ elim (get_elem? h.handler.devs i) [
          | none ↦ []
          | some d ↦ pins_get wanted o d first8
        ]
      ]
      ++ pins_from wanted is h

  unfoldable pub pins : PinRole → Home b → List PinInfo
  pins r h = pins_from (has_role r) h.handler.by_bus h

  unfoldable pub room_pins : Text → Home b → List PinInfo
  room_pins r h = pins_from (in_room r) h.handler.by_bus h

  unfoldable pub rooms : Home b → List Text
  rooms h = insert_all (dark_rooms b h.handler) (insert_all (rooms_of (room_pins [] h)) [])
