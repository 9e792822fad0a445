-- ===== src/Switches/Handler.antt =====
-- `SwitchHandler` of src/switch_handler.cpp: what a press does to its targets and their off timers.
-- A call that reads the clock takes the time as an argument, in nanoseconds.
use in10dhost.Prelude.{
  ℕ, ◌+◌, ◌-◌, ◌*◌, ◌/◌, ◌%◌, ◌^◌, Bool, true, false, not, ◌&&◌, Option, none, some, List, [], ◌∷◌,
  Text, length, get_or, set, get_elem?, ltb, ◌==◌, if◌then◌else◌, bit_and, same,
}
use in10dhost.Prelude.Bits.{first8, set_bit, clear_bit}
use in10dhost.Bus.{Bus}
use in10dhost.Pin.{PinRole, light, eq_role}
use in10dhost.Ds2408.State.{Dev, pin_is_on, role, room}
use in10dhost.Ds2408.Switch.{PioMode, off, on, toggle, pin_switch, role_switch}
use in10dhost.Switches.Address.{
  SrcAdr, DstAdr, Switch, src_data, dst_data, is_all_off, on_press_off, cond_dark,
}
use in10dhost.Switches.Table.{Table}
use in10dhost.Switches.Timers.{TimerMap, insert, lookup, erase, of_data, expired, pending}

-- The handler with what it reaches: the devices in the order of `dev_list`, the order in which the
-- busses list them, and the bus itself.
pub record Handler (b : Bus) : Type 0 where
  pub switches : Table
  pub timers : TimerMap
  pub mode : ℕ
  pub dark : Bool
  pub room_dark : List (Text × Bool)
  pub cur_latch : ℕ
  pub press_time : ℕ
  pub devs : List Dev
  pub by_bus : List ℕ
  pub bus : Bus.St b

abbrev pub second : ℕ
second = 1_000_000_000

abbrev pub family : ℕ
family = 0x29

-- `OwDevices::find(bus, id, 0x29)`: the first device with that address, as its place in the list.
unfoldable pub find_from : ℕ → ℕ → ℕ → List Dev → Option ℕ
find_from bus id i [] = none
find_from bus id i (d ∷ ds) =
    if get_or d.addr 1 0 == id && (d.bus == bus && get_or d.addr 0 0 == family)
    then some i
    else find_from bus id (i + 1) ds

unfoldable pub find : DstAdr → List Dev → Option ℕ
find p ds = find_from p.bus p.adr 0 ds

-- The device that is found.
unfoldable pub target : DstAdr → List Dev → Option Dev
target p ds = elim (find p ds) [ none ↦ none | some i ↦ get_elem? ds i ]

unfoldable pub dark_of : Text → List (Text × Bool) → Option Bool
dark_of r [] = none
dark_of r ((n, b) ∷ m) = if same r n then some b else dark_of r m

module _ (b : Bus) where
  unfoldable pub is_dark : Text → Handler b → Bool
  is_dark [] h = h.dark
  is_dark (c ∷ cs) h = elim (dark_of (c ∷ cs) h.room_dark) [ none ↦ h.dark | some d ↦ d ]

  unfoldable pub dst_room : DstAdr → Handler b → Text
  dst_room p h =
      if is_all_off p then [] else elim (target p h.devs) [ none ↦ [] | some d ↦ room d p.pio ]

  unfoldable pub cond_met : Switch → Handler b → Bool
  cond_met sw h = if sw.cond == cond_dark then is_dark (dst_room sw.dst h) h else true

  unfoldable pub output_on : DstAdr → Handler b → Bool
  output_on p h = elim (target p h.devs) [ none ↦ false | some d ↦ pin_is_on d p.pio ]

  -- The value is what the source returns as a `bool`: the answer of `pin_switch`.
  unfoldable pub actor_handle : DstAdr → PioMode → Handler b → Bool × Handler b
  actor_handle p m h = elim (find p h.devs) [
    | none ↦ (false, h)
    | some i ↦ elim (get_elem? h.devs i) [
      | none ↦ (false, h)
      | some d ↦
          let (r, d', s) = pin_switch b d p.pio m 0 h.bus in
          (not (r == 0), record h { devs = set h.devs i d'; bus = s })
    ]
  ]

  unfoldable pub timer_start : DstAdr → ℕ → ℕ → Handler b → Handler b
  timer_start p secs now h = record h {
    timers = insert (dst_data p) (now + secs * second) h.timers;
  }

  unfoldable pub timer_stop : DstAdr → Handler b → Handler b
  timer_stop p h = record h { timers = erase (dst_data p) h.timers }

  unfoldable pub timer_running : DstAdr → Handler b → Bool
  timer_running p h = elim (lookup (dst_data p) h.timers) [ none ↦ false | some d ↦ true ]

  -- Seconds left, 0 from the deadline on; `none` is the source's -1.
  unfoldable pub timer_remaining : DstAdr → ℕ → Handler b → Option ℕ
  timer_remaining p now h = elim (lookup (dst_data p) h.timers) [
    | none ↦ none
    | some d ↦ some ((d - now) / second)
  ]

  unfoldable pub switch_timed : Switch → ℕ → Handler b → Handler b
  switch_timed sw now h =
      if not (output_on sw.dst h)
      then timer_start sw.dst sw.secs now (actor_handle sw.dst on (timer_stop sw.dst h)).1
      else if sw.on_press == on_press_off
      then (actor_handle sw.dst off (timer_stop sw.dst h)).1
      else if not (timer_running sw.dst h)
      then h
      else timer_start sw.dst sw.secs now h

  -- The timers of lights are stopped.
  unfoldable pub stop_lights : List (ℕ × ℕ) → Handler b → Handler b
  stop_lights [] h = h
  stop_lights ((k, d) ∷ m) h =
      let p = of_data k in
      let is_light : Bool = elim (target p h.devs) [
        | none ↦ false
        | some dev ↦ eq_role (role dev p.pio) light
      ] in
      stop_lights m (if is_light then timer_stop p h else h)

  unfoldable pub role_switch_dev : ℕ → PinRole → Bool → Handler b → ℕ × Handler b
  role_switch_dev i r wanted h = elim (get_elem? h.devs i) [
    | none ↦ (0, h)
    | some d ↦
        let (n, d', s) = role_switch b d r wanted h.bus in
        (n, record h { devs = set h.devs i d'; bus = s })
  ]

  -- `OwDevices::role_switch`, bus by bus: how many pins could not be switched.
  unfoldable pub role_switch_all : List ℕ → PinRole → Bool → Handler b → ℕ × Handler b
  role_switch_all [] r wanted h = (0, h)
  role_switch_all (i ∷ is) r wanted h =
      let (n, h1) = role_switch_dev i r wanted h in
      let (rest, h2) = role_switch_all is r wanted h1 in (n + rest, h2)

  unfoldable pub all_off : Handler b → Handler b
  all_off h = (role_switch_all h.by_bus light false (stop_lights h.timers h)).1

  -- What the entry of the table does that a press belongs to.
  unfoldable pub apply_switch : Switch → ℕ → Handler b → Handler b
  apply_switch sw now h =
      if sw.disabled
      then h
      else if not (cond_met sw h) && (not (is_all_off sw.dst) && not (output_on sw.dst h))
      then h
      else if is_all_off sw.dst
      then all_off h
      else if not (sw.secs == 0)
      then switch_timed sw now h
      else timer_stop sw.dst (actor_handle sw.dst toggle h).1

  unfoldable pub apply_table : ℕ → Table → ℕ → Handler b → Handler b
  apply_table src [] now h = h
  apply_table src (sw ∷ sws) now h =
      apply_table src sws now (if src == src_data sw.src then apply_switch sw now h else h)

  -- `bitnumber`: the lowest latch that is set, from 1, and the latches without it.
  unfoldable pub bitnumber : List ℕ → ℕ → Option (ℕ × ℕ)
  bitnumber [] latch = none
  bitnumber (i ∷ is) latch =
      if bit_and latch (2 ^ i) == 0 then bitnumber is latch else some (i + 1, latch - 2 ^ i)

  -- 0 short, 1 long released, 2 pushed, by the press time in units of 32 ms.
  unfoldable pub press_of : ℕ → ℕ
  press_of t = if t == 0xff then 0 else if t == 0 then 2 else if ltb (350 / 32) t then 1 else 0

  abbrev pub mode_auto_switch : ℕ
  mode_auto_switch = 3

  unfoldable pub all_disabled : Handler b → Bool
  all_disabled h = bit_and h.mode (2 ^ mode_auto_switch) == 0

  unfoldable pub all_disabled_set : Bool → Handler b → Handler b
  all_disabled_set disabled h = record h {
    mode = if disabled then clear_bit h.mode mode_auto_switch else set_bit h.mode mode_auto_switch;
  }

  -- The source of the next latch, and the handler without that latch.
  unfoldable pub src_next : ℕ → ℕ → Handler b → Option (SrcAdr × Handler b)
  src_next bus adr h = elim (bitnumber first8 h.cur_latch) [
    | none ↦ none
    | some (nr, left) ↦ some (
      record {
        res = 0;
        bus = bus % 8;
        press = press_of h.press_time;
        latch = nr % 16;
        adr = bit_and adr 0x3f;
      },
      record h { cur_latch = left },
    )
  ]

  unfoldable pub switch_handle : ℕ → ℕ → ℕ → Handler b → Handler b
  switch_handle bus adr now h = elim (src_next bus adr h) [
    | none ↦ h
    | some (src, h') ↦ if all_disabled h' then h' else apply_table (src_data src) h'.switches now h'
  ]

  unfoldable pub off_each : List ℕ → Handler b → Handler b
  off_each [] h = h
  off_each (k ∷ ks) h = off_each ks (actor_handle (of_data k) off h).1

  unfoldable pub timer_poll : ℕ → Handler b → ℕ × Handler b
  timer_poll now h =
      let due = expired now h.timers in
      (length due, off_each due (record h { timers = pending now h.timers }))
