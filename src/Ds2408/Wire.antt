-- ===== src/Ds2408/Wire.antt =====
-- The transfers of a `ds2408` on the bus: the latch reset, the write of the outputs, the custom
-- commands. Each goes through the controller's calls in the order of the source.
use in10dhost.Prelude.{
  ℕ, ◌+◌, ◌-◌, ◌*◌, ◌/◌, ◌%◌, ◌^◌, Bool, true, false, ◌&&◌, ◌||◌, not, List, [], ◌∷◌, ◌++◌, ltb,
  ◌==◌, if◌then◌else◌, bit_and, bit_or, bit_xor, set,
}
use in10dhost.Prelude.Bits.{first8}
use in10dhost.Bus.{Bus, write_ok, retry, confirm}
use in10dhost.Crc.{crc16}
use in10dhost.Ds2408.State.{
  Dev, PinChange, pin_of, is_pwm, pwm_mask, pin_is_on, pin_is_output, pin_label,
}

-- LATCH_RESET_RETRY, PIOSET_RETRY and REG_RETRY are 20, of which the loops make 19 attempts.
abbrev pub retries : ℕ
retries = 18

module _ (b : Bus) where
  open b use {St, select_channel, reset, select, write, read, last_err}

  -- One attempt of `latch_reset`: the answer, 0xff where a call before it failed.
  latch_attempt : Dev → St → ℕ × St
  latch_attempt d s =
      let (chosen, s1) = select_channel d.bus s in
      let (present, s2) = if chosen then reset s1 else (false, s1) in
      let s3 = if present && last_err s2 == 0 then select d.addr s2 else s2 in
      let s4 = write_ok b 0xC3 s3 in if last_err s4 == 0 then read s4 else (0xff, s4)

  unfoldable pub latch_reset : Dev → St → ℕ × Dev × St
  unfolding latch_attempt
  latch_reset d s =
      if d.fw_busy
      then (0xff, d, s)
      else (let (r, s1) = retry b retries (latch_attempt d) s in
          if r == confirm
          then (confirm, record d { regs = record d.regs { latch = 0 } }, s1)
          else (0xff, d, s1))

  -- One attempt of `pio_set`: the write, and the read that is made in any case.
  pio_attempt : Dev → ℕ → St → ℕ × St
  pio_attempt d pio s =
      let (chosen, s1) = select_channel d.bus s in
      let (present, s2) = if chosen then reset s1 else (false, s1) in
      let s3 = if present then select d.addr s2 else s2 in
      let s4 = write_ok b 0x5A s3 in
      let s5 = write_ok b pio s4 in let s6 = write_ok b (255 - pio) s5 in read s6

-- The plain outputs of `diff`, with what they are after the write.
unfoldable pub changed_pins : Dev → ℕ → List ℕ → List PinChange
changed_pins d diff [] = []
changed_pins d diff (i ∷ is) =
    let rest = changed_pins d diff is in
    if bit_and diff (2 ^ i) == 0 || not (pin_is_output d i) || is_pwm d i
    then rest
    else record {
      pin = i;
      on = pin_is_on d i;
      name = pin_label d i;
      role = (pin_of d i).role;
      room = (pin_of d i).room;
    }
      ∷ rest

-- What a confirmed write leaves in the device: `out_known`, the output latch, and the event.
unfoldable pub note_out : ℕ → Dev → Dev
note_out pio d =
    let known = record d { out_known = true } in
    let written = record known { regs = record d.regs { out = pio } } in
    if d.regs.out == pio then known else record written {
      notified =
          d.notified
          ++ record { pio = pio; changed = changed_pins written (bit_xor d.regs.out pio) first8 }
            ∷ [];
    }

module _ (b : Bus) where
  open b use {St, select_channel, reset, select, write, read, last_err}

  -- Once the device has confirmed, its latches are reset and the write is noted.
  unfoldable pub pio_done : Dev → ℕ → ℕ × St → ℕ × Dev × St
  pio_done d pio (r, s1) =
      if r == confirm
      then (let (_, d1, s2) = latch_reset b d s1 in (r, note_out pio d1, s2))
      else (r, d, s1)

  unfoldable pub pio_set : Dev → ℕ → St → ℕ × Dev × St
  unfolding pio_attempt
  pio_set d pio s =
      let pio' = bit_or pio (pwm_mask d) in
      if d.fw_busy then (0xff, d, s) else pio_done d pio' (retry b retries (pio_attempt b d pio') s)

  -- The five bytes of a command, each only after the one before got through.
  write_until_error : List ℕ → St → St
  write_until_error [] s = s
  write_until_error (x ∷ xs) s =
      let s1 = write x s in
      let rest = write_until_error xs s1 in if last_err s1 == 0 then rest else s1

  unfoldable pub custom_cmd : Dev → ℕ → ℕ → ℕ → ℕ → St → ℕ × St
  unfolding write_until_error
  custom_cmd d pio cmd val1 val2 s =
      let msg = 0xC5 ∷ cmd ∷ pio ∷ val1 ∷ val2 ∷ [] in
      if d.fw_busy
      then (0xff, s)
      else (let (chosen, s1) = select_channel d.bus s in
          if not chosen
          then (0xff, s1)
          else (let (present, s2) = reset s1 in
              if not present
              then (0xff, s2)
              else (let s3 = write_until_error msg (select d.addr s2) in
                  let (lo, s4) = read s3 in
                  let (hi, s5) = read s4 in
                  if lo + 256 * hi == 0xffff - crc16 msg 0 then (confirm, s5) else (0xff, s5))))

abbrev pub tmr_on : ℕ
tmr_on = 0xDD

abbrev pub tmr_stop : ℕ
tmr_stop = 0xEE

abbrev pub tmr_stop_dim : ℕ
tmr_stop_dim = 0xEB

abbrev pub tmr_brightness : ℕ
tmr_brightness = 0xE3

abbrev pub tmr_threshold : ℕ
tmr_threshold = 0xE5

abbrev pub tmr_extport : ℕ
tmr_extport = 0xE7

-- The percentage that is kept, and what the device takes for it: 0..254.
abbrev pub percent : ℕ → ℕ
percent level = if ltb 100 level then 100 else level

abbrev pub raw_level : ℕ → ℕ
raw_level pct = pct * 254 / 100 % 256

-- A level 0 stops: at once when already off, else by dimming down.
unfoldable pub level_cmd : ℕ → ℕ → ℕ
level_cmd raw old = if not (raw == 0) then tmr_on else if old == 0 then tmr_stop else tmr_stop_dim

unfoldable pub keep_level : Dev → ℕ → ℕ → Dev
keep_level d pio pct = record d { pins = set d.pins pio (record (pin_of d pio) { level = pct }) }

module _ (b : Bus) where
  open b use {St}

  unfoldable pub level_set : Dev → ℕ → ℕ → St → ℕ × Dev × St
  level_set d pio level s =
      let pct = percent level in
      let raw = raw_level pct in
      let (r, s1) = custom_cmd b d pio (level_cmd raw (pin_of d pio).level) raw raw s in
      if r == confirm then (confirm, keep_level d pio pct, s1) else (0xff, d, s1)

  -- 0 is success, and true is -EAGAIN: the value is kept either way.
  unfoldable pub brightness_set : Dev → ℕ → St → Bool × Dev × St
  brightness_set d v s =
      let d1 = record d { brightness = v } in
      let (r, s1) = custom_cmd b d1 0 tmr_brightness v 0 s in (not (r == confirm), d1, s1)

  unfoldable pub threshold_set : Dev → ℕ → St → Bool × Dev × St
  threshold_set d v s =
      let d1 = record d { threshold = v } in
      let (r, s1) = custom_cmd b d1 0 tmr_threshold v 0 s in (not (r == confirm), d1, s1)

  unfoldable pub extport_set : Dev → ℕ → ℕ → St → Bool × Dev × St
  extport_set d ddr port s =
      let d1 = record d { ext_ddr = ddr; ext_port = port; ext_known = true } in
      let (r, s1) = custom_cmd b d1 0 tmr_extport ddr port s in (not (r == confirm), d1, s1)
