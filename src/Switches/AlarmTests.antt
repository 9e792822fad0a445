-- ===== src/Switches/AlarmTests.antt =====
-- An alarm of the device with two latches, whose registers are read and whose transfers are confirmed.
use in10dhost.Prelude.{ℕ, ◌+◌, ◌%◌, ◌≡◌, refl, ◌∷◌, [], true, false, arith, get_or, inl}
use in10dhost.Prelude.Bits.{first8, test_bit}
use in10dhost.Bus.{Bus, retry, write_all, read_all}
use in10dhost.Crc.{crc16_byte, crc16, check_crc16}
use in10dhost.Ds2408.Tests.{dev}
use in10dhost.Ds2408.Wire.{keep_level, latch_reset}
use in10dhost.Ds2408.Registers.{
  regs_of, no_reply, mismatch, note_watchdog, note_dimmed, reg_transfer, reg_step, reg_loop,
  reset_if, reg_done, reg_read, alarm_read,
}
use in10dhost.Switches.Handler.{Handler, find_from, all_disabled}
use in10dhost.Switches.Alarm.{dev_alarm}
use in10dhost.Switches.Drained.{press_each, set_latches, alarmed, dev_alarm-drained}
use in10dhost.Switches.Silent.{dev_alarm-masked}

-- Latches 1 and 3.
abbrev pressed : Bus
pressed = record {
  St = ℕ;
  select_channel = λ c s. (true, s);
  reset = λ s. (true, s);
  select = λ a s. s;
  write = λ c s. s;
  read = λ s. (get_or (0xFF ∷ 0xFB ∷ 5 ∷ 0 ∷ 0 ∷ 0 ∷ 0xFF ∷ 0 ∷ 62 ∷ 144 ∷ []) s 0xAA % 256, s + 1);
  last_err = λ s. 0;
  read-lt = λ s. omega arith;
}

abbrev house : Handler pressed
house = record {
  switches = [];
  timers = [];
  mode = 8;
  dark = false;
  room_dark = [];
  cur_latch = 0;
  press_time = 0xff;
  devs = dev ∷ [];
  by_bus = 0 ∷ [];
  bus = 0;
}

dev_alarm-drained_example :
    (dev_alarm pressed 0 7 (λ n. n) house ≡ (
      true,
      press_each pressed
          (set_latches first8 (alarm_read pressed dev 0).1)
          8
          0
          7
          (alarm_read pressed dev 0).2.regs.time
          (λ n. n)
          (alarmed pressed 0 dev house),
    ))
    × ((dev_alarm pressed 0 7 (λ n. n) house).1.cur_latch ≡ 0)
unfolding find_from reg_read reg_loop reg_step reg_transfer reg_done reset_if latch_reset retry
    read_all write_all mismatch no_reply check_crc16 crc16 crc16_byte note_watchdog note_dimmed
    keep_level regs_of test_bit alarm_read
dev_alarm-drained_example =
    dev_alarm-drained pressed 0 7 0 (λ n. n) house dev refl refl (inl refl) refl (omega arith)

-- The same house, with all switches masked.
abbrev masked : Handler pressed
masked = record house { mode = 0 }

dev_alarm-masked_example :
    (dev_alarm pressed 0 7 (λ n. n) masked).1 ≡ record (alarmed pressed 0 dev masked) {
      cur_latch = 0;
      press_time = (dev_alarm pressed 0 7 (λ n. n) masked).1.press_time;
    }
unfolding find_from reg_read reg_loop reg_step reg_transfer reg_done reset_if latch_reset retry
    read_all write_all mismatch no_reply check_crc16 crc16 crc16_byte note_watchdog note_dimmed
    keep_level regs_of test_bit alarm_read all_disabled
dev_alarm-masked_example =
    dev_alarm-masked pressed 0 7 0 (λ n. n) masked dev refl refl (inl refl) refl (omega arith) refl
