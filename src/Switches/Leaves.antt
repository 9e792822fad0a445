-- ===== src/Switches/Leaves.antt =====
-- The dark flags of the rooms, the names behind a line of /switches/list, and the leaf dark.
use in10dhost.Prelude.{
  ℕ, ◌-◌, Bool, true, false, not, ◌&&◌, Option, none, some, List, [], ◌∷◌, ◌++◌, Text, codes,
  length, ltb, ◌==◌, if◌then◌else◌, same, get_elem?,
}
use in10dhost.Prelude.Int.{pos, negsuc}
use in10dhost.Numbers.{ok, err}
use in10dhost.Numbers.Decimal.{decimal}
use in10dhost.Parse.{parse_num}
use in10dhost.Bus.{Bus}
use in10dhost.FsTable.{Reply, text, took, error}
use in10dhost.OwDev.{OwDev, display_name}
use in10dhost.Ds2408.State.{Dev, pin_label}
use in10dhost.Switches.Address.{SrcAdr, DstAdr, Switch, is_all_off, on_press_off, cond_dark}
use in10dhost.Switches.Table.{Table, einval}
use in10dhost.Switches.Line.{line_text}
use in10dhost.Switches.Handler.{
  Handler, find_from, find, dark_of, dst_room, is_dark, all_disabled, timer_remaining,
}

abbrev pub Rooms : Type 0
Rooms = List (Text × Bool)

-- Whether a text stands before another, as the keys of a `std::map` are in order.
unfoldable pub comes_before : Text → Text → Bool
comes_before [] [] = false
comes_before [] (y ∷ ys) = true
comes_before (x ∷ xs) [] = false
comes_before (x ∷ xs) (y ∷ ys) = let rest = comes_before xs ys in if x == y then rest else ltb x y

unfoldable pub put_room : Text → Bool → Rooms → Rooms
put_room r dark [] = (r, dark) ∷ []
put_room r dark ((n, b) ∷ m) =
    let rest = put_room r dark m in
    if same r n
    then (n, dark) ∷ m
    else if comes_before r n
    then (r, dark) ∷ (n, b) ∷ m
    else (n, b) ∷ rest

unfoldable pub erase_room : Text → Rooms → Rooms
erase_room r [] = []
erase_room r ((n, b) ∷ m) = let rest = erase_room r m in if same r n then m else (n, b) ∷ rest

unfoldable pub room_names : Rooms → List Text
room_names [] = []
room_names ((n, b) ∷ m) = n ∷ room_names m

module _ (b : Bus) where
  -- Without a room, the flag of all that have none of their own.
  unfoldable pub dark_set : Bool → Text → Handler b → Handler b
  dark_set dark [] h = record h { dark = dark }
  dark_set dark (c ∷ cs) h = record h { room_dark = put_room (c ∷ cs) dark h.room_dark }

  unfoldable pub dark_clear : Text → Handler b → Handler b
  dark_clear r h = record h { room_dark = erase_room r h.room_dark }

  unfoldable pub has_dark : Text → Handler b → Bool
  has_dark r h = elim (dark_of r h.room_dark) [ none ↦ false | some d ↦ true ]

  unfoldable pub dark_rooms : Handler b → List Text
  dark_rooms h = room_names h.room_dark

  -- The base of the device at a place, and the device; `bases` are in the order of `devs`.
  named : Option ℕ → List OwDev → Handler b → Option (OwDev × Dev)
  named none bases h = none
  named (some i) bases h = elim (get_elem? bases i) [
    | none ↦ none
    | some o ↦ elim (get_elem? h.devs i) [ none ↦ none | some d ↦ some (o, d) ]
  ]

  unknown : ℕ → ℕ → Text
  unknown bus adr = codes "unknown device " ++ (decimal bus ++ (b'.' ∷ decimal adr))

  unfoldable pub src_label : List OwDev → SrcAdr → Handler b → Text
  unfolding named unknown
  src_label bases a h =
      elim (named (find_from a.bus a.adr 0 h.devs) bases h) [
        | none ↦ unknown a.bus a.adr
        | some (o, d) ↦
            display_name o
            ++ (codes ", " ++ (if a.latch == 0 then codes "?" else pin_label d (a.latch - 1)))
      ]
      ++ (codes " (latch "
          ++ (decimal a.latch
              ++ ((if a.press == 1
                    then codes ", long"
                    else if a.press == 2
                    then codes ", long started"
                    else [])
                  ++ codes ")")))

  unfoldable pub dst_label : List OwDev → DstAdr → Handler b → Text
  unfolding named unknown
  dst_label bases a h =
      let known : Text = elim (named (find a h.devs) bases h) [
        | none ↦ unknown a.bus a.adr
        | some (o, d) ↦ display_name o ++ (codes ", " ++ pin_label d a.pio)
      ] in
      if is_all_off a then codes "all lights off" else known

  timed_text : Switch → ℕ → Handler b → Text
  timed_text sw now h =
      let left : Text = elim (timer_remaining b sw.dst now h) [
        | none ↦ []
        | some n ↦ codes ", off in " ++ (decimal n ++ codes "s")
      ] in
      if sw.secs == 0
      then []
      else codes ", timed "
        ++ (decimal sw.secs
            ++ (codes "s, press "
                ++ ((if sw.on_press == on_press_off then codes "off" else codes "restarts")
                    ++ left)))

  no_room : Text → Bool
  no_room [] = true
  no_room (c ∷ cs) = false

  day_text : Bool → Text
  day_text dark = if dark then codes "dark" else codes "day"

  dark_text : Switch → Handler b → Text
  unfolding no_room day_text
  dark_text sw h =
      let room = dst_room b sw.dst h in
      let own =
        if not (no_room room) && has_dark room h
        then codes " (" ++ (room ++ (b' ' ∷ (day_text (is_dark b room h) ++ codes ")")))
        else [] in
      if sw.cond == cond_dark then codes ", only when dark" ++ own else []

  -- The names and the state, behind how a switch is added.
  unfoldable pub names_text : List OwDev → Switch → ℕ → Handler b → Text
  unfolding timed_text dark_text
  names_text bases sw now h =
      codes ": "
      ++ (src_label bases sw.src h
          ++ (codes " -> "
              ++ (dst_label bases sw.dst h
                  ++ (timed_text sw now h
                      ++ (dark_text sw h ++ (if sw.disabled then codes ", disabled" else []))))))

  -- The lines of the switches.
  unfoldable pub lines_text : List OwDev → Table → ℕ → Handler b → Text
  lines_text bases [] now h = []
  lines_text bases (sw ∷ sws) now h =
      line_text sw (names_text bases sw now h) ++ (10 ∷ lines_text bases sws now h)

  unfoldable pub list_text : List OwDev → ℕ → Handler b → Text
  unfolding day_text
  list_text bases now h =
      decimal (length h.switches)
      ++ (codes " switches, "
          ++ (day_text h.dark
              ++ ((if all_disabled b h then codes ", all disabled" else [])
                  ++ (10 ∷ lines_text bases h.switches now h))))

  unfoldable pub r_dark : Handler b → Reply
  r_dark h = text ((if h.dark then b'1' else b'0') ∷ 10 ∷ [])

  unfoldable pub w_dark : ℕ → Text → Handler b → Reply × Handler b
  w_dark long_max buf h = elim (parse_num long_max buf) [
    | err e ↦ (error einval, h)
    | ok (negsuc n) ↦ (error einval, h)
    | ok (pos n) ↦
        if ltb 1 n then (error einval, h) else (took (length buf), dark_set (n == 1) [] h)
  ]
