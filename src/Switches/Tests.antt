-- ===== src/Switches/Tests.antt =====
-- The theorems on the switch table at concrete tables and texts.
use in10dhost.Prelude.{all, ◌≡◌, refl, ◌∷◌, [], codes, length, some, false, arith}
use in10dhost.Switches.Address.{Switch, src_data, dst_data, is_all_off, same_switch}
use in10dhost.Switches.Line.{parse_buf, line_text}
use in10dhost.Switches.RoundTrip.{IsListed, parse_buf-line_text, stops}
use in10dhost.Switches.Table.{Table, w_add, w_del, contains, upsert}
use in10dhost.Ds2408.Tests.{good}
use in10dhost.Numbers.Decimal.{decimal}
use in10dhost.Switches.Timers.{lookup}
use in10dhost.Switches.Handler.{Handler, find, find_from, timer_remaining, dst_room, target}
use in10dhost.Switches.Leaves.{lines_text, names_text, src_label, dst_label}
use in10dhost.Switches.Writes.{lines_of, NamesInLine, w_add-lines, w_add_stuck, each_switch}
use in10dhost.Switches.Distinct.{Distinct, w_add-Distinct, w_del-w_add}

-- 1.5.13 -> 0.7.2 300 1 dark
abbrev hall : Switch
hall = record {
  src = record { res = 0; bus = 1; press = 1; latch = 3; adr = 5 };
  dst = record { pio = 2; adr = 7; bus = 0; type = 0 };
  secs = 300;
  on_press = 1;
  cond = 1;
  disabled = false;
}

-- The same pin, from another latch, without timing.
abbrev stairs : Switch
stairs = record {
  src = record { res = 0; bus = 1; press = 0; latch = 4; adr = 5 };
  dst = record { pio = 2; adr = 7; bus = 0; type = 0 };
  secs = 0;
  on_press = 0;
  cond = 0;
  disabled = false;
}

hall-IsListed : IsListed hall
unfolding is_all_off
hall-IsListed = record {
  src = record {
    res_bit = omega arith;
    bus_bits = omega arith;
    press_bits = omega arith;
    latch_bits = omega arith;
    adr_bits = omega arith;
  };
  dst = record {
    pio_bits = omega arith;
    adr_bits = omega arith;
    bus_bits = omega arith;
    type_bits = omega arith;
  };
  res = refl;
  type = refl;
  press = omega arith;
  short_latch = λ e. omega arith;
  long_latch = λ e. (omega arith, omega arith);
  started_latch = λ e. omega arith;
  secs = omega arith;
  on_press = omega arith;
  plain = λ e. absurd (omega arith);
  cond = omega arith;
  all_off = λ e. ground arith;
}

stairs-IsListed : IsListed stairs
unfolding is_all_off
stairs-IsListed = record {
  src = record {
    res_bit = omega arith;
    bus_bits = omega arith;
    press_bits = omega arith;
    latch_bits = omega arith;
    adr_bits = omega arith;
  };
  dst = record {
    pio_bits = omega arith;
    adr_bits = omega arith;
    bus_bits = omega arith;
    type_bits = omega arith;
  };
  res = refl;
  type = refl;
  press = omega arith;
  short_latch = λ e. omega arith;
  long_latch = λ e. (omega arith, omega arith);
  started_latch = λ e. omega arith;
  secs = omega arith;
  on_press = omega arith;
  plain = λ e. refl;
  cond = omega arith;
  all_off = λ e. ground arith;
}

parse_buf-line_text_example : parse_buf (line_text hall (codes "# hall")) ≡ some hall
unfolding stops
parse_buf-line_text_example = parse_buf-line_text hall (codes "# hall") hall-IsListed refl

-- No device of the switches is known; the target's timer runs.
abbrev unknown_house : Handler good
unknown_house = record {
  switches = hall ∷ stairs ∷ [];
  timers = (58, 9) ∷ [];
  mode = 8;
  dark = false;
  room_dark = [];
  cur_latch = 0;
  press_time = 0xff;
  devs = [];
  by_bus = [];
  bus = 0;
}

hall-NamesInLine : NamesInLine good [] (hall ∷ stairs ∷ []) 7 unknown_house
unfolding all names_text src_label find_from decimal dst_label is_all_off find timer_remaining
    lookup dst_data dst_room target
hall-NamesInLine = (refl, (refl, tt))

w_add-lines_example :
    w_add (lines_text good [] (hall ∷ stairs ∷ []) 7 unknown_house) []
    ≡ (length (lines_text good [] (hall ∷ stairs ∷ []) 7 unknown_house), hall ∷ stairs ∷ [])
unfolding each_switch upsert same_switch src_data dst_data
w_add-lines_example =
    w_add-lines good [] (hall ∷ stairs ∷ []) 7 unknown_house []
      (hall-IsListed, (stairs-IsListed, tt)) hall-NamesInLine

w_add_stuck_example : w_add (codes "# hall\n1.5.13 0.7.2\n") (stairs ∷ []) ≡ (20, stairs ∷ [])
w_add_stuck_example = w_add_stuck b'#' (codes " hall\n1.5.13 0.7.2\n") (stairs ∷ []) refl refl refl

abbrev two : Table
two = hall ∷ stairs ∷ []

two-Distinct : Distinct two
unfolding contains same_switch src_data dst_data
two-Distinct = (refl, (refl, tt))

w_add-Distinct_example : Distinct (w_add (codes "1.5.4 0.7.2 20s\n1.5.4 0.7.2\n") two).1
w_add-Distinct_example = w_add-Distinct (codes "1.5.4 0.7.2 20s\n1.5.4 0.7.2\n") two two-Distinct

w_del-w_add_example :
    w_del (lines_of (hall ∷ [])) (w_add (lines_of (hall ∷ [])) (stairs ∷ [])).1
    ≡ (length (lines_of (hall ∷ [])), stairs ∷ [])
unfolding contains same_switch src_data dst_data
w_del-w_add_example = w_del-w_add hall (stairs ∷ []) hall-IsListed refl
