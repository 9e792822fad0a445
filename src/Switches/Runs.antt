-- ===== src/Switches/Runs.antt =====
-- The theorems on presses at a handler with one device, on a bus that confirms every transfer.
use in10dhost.Prelude.{◌+◌, ◌*◌, ◌≡◌, ◌∷◌, [], some, none, true, false, arith, length}
use in10dhost.Ds2408.Tests.{good, dev}
use in10dhost.Switches.Address.{Switch, dst_data, src_data}
use in10dhost.Switches.Timers.{lookup, Above}
use in10dhost.Switches.Handler.{
  Handler, second, output_on, find, find_from, target, switch_timed, timer_poll, apply_table,
}
use in10dhost.Ds2408.State.{pin_is_on}
use in10dhost.Switches.Press.{switch_timed-timers, timer_poll-timers}
use in10dhost.Switches.Masked.{enabled, apply_table-enabled}

-- Latch 1 of the device 5 switches the lamp on for 20 seconds.
abbrev lamp_switch : Switch
lamp_switch = record {
  src = record { res = 0; bus = 0; press = 0; latch = 1; adr = 5 };
  dst = record { pio = 2; adr = 7; bus = 0; type = 0 };
  secs = 20;
  on_press = 0;
  cond = 0;
  disabled = false;
}

-- A timer of pin 0 runs until 3; the table names the lamp twice, once masked.
abbrev here : Handler good
here = record {
  switches = lamp_switch ∷ record lamp_switch { disabled = true } ∷ [];
  timers = (56, 3) ∷ (60, 9) ∷ [];
  mode = 8;
  dark = false;
  room_dark = [];
  cur_latch = 1;
  press_time = 0xff;
  devs = dev ∷ [];
  by_bus = 0 ∷ [];
  bus = 0;
}

here-Above : Above 0 here.timers
here-Above = (omega arith, (omega arith, tt))

-- The lamp's data is 58.
switch_timed-timers_example :
    lookup 58 (switch_timed good lamp_switch 7 here).timers ≡ some (7 + 20 * second)
unfolding output_on target find find_from pin_is_on dst_data
switch_timed-timers_example = switch_timed-timers good lamp_switch 7 58 here here-Above

timer_poll-timers_example :
    (lookup 56 (timer_poll good 5 here).1.timers ≡ none)
    × ((timer_poll good 5 here).0 + length (timer_poll good 5 here).1.timers ≡ 2)
unfolding lookup
timer_poll-timers_example = timer_poll-timers good 5 56 here here-Above

apply_table-enabled_example :
    apply_table good (src_data lamp_switch.src) here.switches 7 here
    ≡ apply_table good (src_data lamp_switch.src) (lamp_switch ∷ []) 7 here
unfolding enabled
apply_table-enabled_example =
    apply_table-enabled good (src_data lamp_switch.src) here.switches 7 here
