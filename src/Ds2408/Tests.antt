-- ===== src/Ds2408/Tests.antt =====
-- A device with one dimmed and seven plain outputs, on a bus that confirms, and on one that does not.
use in10dhost.Prelude.{ℕ, ◌<◌, ◌+◌, ◌≡◌, refl, ◌∷◌, [], codes, true, false, arith, get_or, ◌%◌}
use in10dhost.Bus.{Bus, confirm, retry, write_all, read_all}
use in10dhost.Pin.{Pin, light}
use in10dhost.Ds2408.State.{Dev, IsDev, pin_is_on, no_pin}
use in10dhost.Ds2408.Wire.{pio_set, pio_done, latch_reset, keep_level}
use in10dhost.Ds2408.Switch.{on, toggle, pin_switch}
use in10dhost.Ds2408.Registers.{
  regs_of, no_reply, mismatch, note_watchdog, note_dimmed, reg_transfer, reg_step, reg_loop,
  reset_if, reg_done, reg_read, alarm_read,
}
use in10dhost.Ds2408.Alarm.{alarm_read-latched}
use in10dhost.Crc.{crc16_byte, crc16, check_crc16}
use in10dhost.Prelude.Bits.{test_bit}
use in10dhost.Ds2408.Pins.{wanted, answer, pin_switch-pins, pin_switch-fail}

-- Every read gives the same byte; the state counts the reads.
abbrev pub constant_bus : (x : ℕ) → (x < 256) → Bus
constant_bus x h = record {
  St = ℕ;
  select_channel = λ c s. (true, s);
  reset = λ s. (true, s);
  select = λ a s. s;
  write = λ c s. s;
  read = λ s. (x, s + 1);
  last_err = λ s. 0;
  read-lt = λ s. h;
}

abbrev pub good : Bus
good = constant_bus 0xAA (omega arith)

abbrev pub silent : Bus
silent = constant_bus 0xFF (omega arith)

abbrev lamp : Pin
lamp = record { name = codes "lamp"; role = light; room = codes "hall"; level = 0 }

abbrev pub dev : Dev
dev = record {
  bus = 0;
  addr = 0x29 ∷ 7 ∷ 0 ∷ 0 ∷ 0 ∷ 0 ∷ 0 ∷ 0 ∷ [];
  cfg =
      0 ∷ 0 ∷ 0 ∷ 0 ∷ 0 ∷ 0 ∷ 0 ∷ 0 ∷ 0 ∷ 0 ∷ 0 ∷ 0x20 ∷ 0x20 ∷ 0x20 ∷ 0x20 ∷ 0x20 ∷ 0x20 ∷ 0x20
      ∷ 0x23 ∷ 0 ∷ 0 ∷ 0 ∷ 0 ∷ 0 ∷ 0 ∷ 0 ∷ [];
  pins = no_pin ∷ no_pin ∷ lamp ∷ no_pin ∷ no_pin ∷ no_pin ∷ no_pin ∷ no_pin ∷ [];
  regs = record {
    ls = 0xff;
    out = 0xff;
    latch = 0;
    search_sel = 0;
    search_pol = 0;
    stat = 0;
    time = 0;
    ext = 0;
    crc_lo = 0;
    crc_hi = 0;
  };
  threshold = 0;
  brightness = 0;
  ext_ddr = 0;
  ext_port = 0;
  ext_known = false;
  latched = 0;
  last_latch = 0;
  out_known = true;
  wdt_pending = false;
  wdt_out = 0xff;
  wdt_out_known = false;
  wdt_count = 0;
  crc_errors = 0;
  fw_busy = false;
  alarm = false;
  notified = [];
}

pub dev-IsDev : IsDev dev
dev-IsDev = record { eight_pins = refl; cfg_size = refl; out_byte = omega arith }

lamp_confirmed : answer good dev 2 toggle 0 0 ≡ confirm
unfolding pio_set pio_done retry
lamp_confirmed = refl

lamp_silent : answer silent dev 2 on 0 0 ≡ 0xff
unfolding pio_set pio_done retry
lamp_silent = refl

-- The lamp at pin 2 goes on.
pin_switch-pins_example : pin_is_on (pin_switch good dev 2 toggle 0 0).1 2 ≡ true
unfolding wanted pin_is_on
pin_switch-pins_example =
    pin_switch-pins good dev 2 2 toggle 0 0 dev-IsDev (omega arith) (omega arith) (λ e. cc)
      lamp_confirmed

pin_switch-fail_example :
    ((pin_switch silent dev 2 on 0 0).1 ≡ dev) × ((pin_switch silent dev 2 on 0 0).0 ≡ 0)
pin_switch-fail_example =
    pin_switch-fail silent dev 2 on 0 0 (λ e. absurd (omega (arith, lamp_silent, e)))

-- The registers after a watchdog reset with latch 2 set, as they are read, then confirmations.
abbrev alarmed : Bus
alarmed = record {
  St = ℕ;
  select_channel = λ c s. (true, s);
  reset = λ s. (true, s);
  select = λ a s. s;
  write = λ c s. s;
  read = λ s.
      (get_or (0xFF ∷ 0xFB ∷ 4 ∷ 0 ∷ 0 ∷ 0x88 ∷ 0xFF ∷ 0 ∷ 191 ∷ 107 ∷ []) s 0xAA % 256, s + 1);
  last_err = λ s. 0;
  read-lt = λ s. omega arith;
}

alarm_read-latched_example : test_bit (alarm_read alarmed dev 0).2.latched 2 ≡ true
unfolding reg_read reg_loop reg_step reg_transfer reg_done reset_if latch_reset retry read_all
    write_all mismatch no_reply check_crc16 crc16 crc16_byte note_watchdog note_dimmed keep_level
    regs_of test_bit alarm_read
alarm_read-latched_example = alarm_read-latched alarmed dev 0 2

abbrev waiting : Dev
waiting = record dev { wdt_pending = true; wdt_out = 0xF0; wdt_out_known = true }
