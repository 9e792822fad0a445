-- ===== src/Ds2408/Registers.antt =====
-- The register read of a ds2408, its alarm, and what is restored after a watchdog reset: `reg_read`,
-- `alarm_read`, `status_clear` and `watchdog_restore` of src/ds2408.cpp.
use in10dhost.Prelude.{
  ℕ, zero, suc, ◌+◌, ◌-◌, ◌%◌, ◌^◌, Bool, true, false, ◌&&◌, ◌||◌, not, List, [], ◌∷◌, ◌==◌,
  if◌then◌else◌, bit_and, bit_or, get_or, take,
}
use in10dhost.Prelude.Bits.{first8}
use in10dhost.Bus.{Bus, write_all, read_all, confirm}
use in10dhost.Crc.{crc16, check_crc16}
use in10dhost.Ds2408.State.{Dev, Regs, pin_of, is_pwm}
use in10dhost.Ds2408.Wire.{latch_reset, pio_set, level_set, keep_level, retries}

abbrev pub stat_watchdog : ℕ
stat_watchdog = 0x88

-- `memcpy(data, rd, 10)`
unfoldable pub regs_of : List ℕ → Regs
regs_of rd = record {
  ls = get_or rd 0 0;
  out = get_or rd 1 0;
  latch = get_or rd 2 0;
  search_sel = get_or rd 3 0;
  search_pol = get_or rd 4 0;
  stat = get_or rd 5 0;
  time = get_or rd 6 0;
  ext = get_or rd 7 0;
  crc_lo = get_or rd 8 0;
  crc_hi = get_or rd 9 0;
}

unfoldable pub no_reply : List ℕ → Bool
no_reply [] = true
no_reply (x ∷ xs) = x == 0xff && no_reply xs

-- Read PIO Registers, from address 0x0088.
abbrev pub read_command : List ℕ
read_command = 0xF0 ∷ 0x88 ∷ 0x00 ∷ []

-- The bytes are no answer to the command: their checksum is wrong, and there was an answer.
unfoldable pub mismatch : List ℕ → Bool
mismatch rd =
    not (no_reply rd)
    && not (check_crc16 (take 8 rd) (get_or rd 8 0) (get_or rd 9 0) (crc16 read_command 0))

-- What the loop leaves: `exhausted` is `retry == 0`.
pub record RegRun (b : Bus) : Type 0 where
  pub dev : Dev
  pub err : ℕ
  pub crc_bad : Bool
  pub exhausted : Bool
  pub bus : Bus.St b

-- The watchdog part of a read, with what the device drove before it: only the first read after the
-- reset has what to restore.
unfoldable pub note_watchdog : ℕ → Bool → Dev → Dev
note_watchdog prev_out prev_known d =
    if d.regs.stat == 0xff
    then d
    else if not (bit_and d.regs.stat stat_watchdog == 0)
    then (if d.wdt_pending then record d { out_known = false } else record d {
      wdt_pending = true;
      wdt_out = prev_out;
      wdt_out_known = prev_known;
      out_known = false;
    })
    else if not d.wdt_pending
    then record d { out_known = true }
    else d

-- Bit 6 of the status tells that pin 0 is dimmed down.
unfoldable pub note_dimmed : Dev → Dev
note_dimmed d = if bit_and d.regs.stat 0x40 == 0 then d else keep_level d 0 0

module _ (b : Bus) where
  open b use {St, select_channel, reset, select, write, last_err}

  unfoldable pub reg_transfer : Dev → St → List ℕ × St
  reg_transfer d s =
      let (chosen, s1) = select_channel d.bus s in
      let (present, s2) = if last_err s1 == 0 then reset s1 else (chosen, s1) in
      let s3 = if present && last_err s2 == 0 then select d.addr s2 else s2 in
      let s4 = if last_err s3 == 0 then write_all b read_command s3 else s3 in read_all b 10 s4

  -- What one attempt makes of the bytes: registers that pass their checksum are taken, and are good
  -- unless the status is 0xff.
  unfoldable pub reg_step : ℕ → Dev → List ℕ × St → RegRun b
  reg_step err d (rd, s1) =
      let bad = last_err s1 == 0 && mismatch rd in
      let good = not bad && not ((regs_of rd).stat == 0xff) in
      record {
        dev =
            if bad
            then record d { crc_errors = (d.crc_errors + 1) % 2 ^ 32 }
            else record d { regs = regs_of rd };
        err = if bad || (good || not (err == 0)) then err else last_err s1;
        crc_bad = bad;
        exhausted = not good;
        bus = s1;
      }

  -- One attempt and at most `n` more, until one is good.
  unfoldable pub reg_loop : ℕ → ℕ → Dev → St → RegRun b
  reg_loop zero err d s = reg_step err d (reg_transfer d s)
  reg_loop (suc n) err d s =
      let run = reg_step err d (reg_transfer d s) in
      let again = reg_loop n run.err run.dev run.bus in if run.exhausted then again else run

  -- The latches are reset where that was asked for.
  unfoldable pub reset_if : Bool → Dev → St → ℕ × Dev × St
  reset_if c d s = if c then latch_reset b d s else (confirm, d, s)

  -- What follows the loop.
  unfoldable pub reg_done : Bool → ℕ → Bool → RegRun b → ℕ × Dev × St
  reg_done reset_latches prev_out prev_known run =
      let d = run.dev in
      if run.crc_bad
      then (0, d, run.bus)
      else if not (run.err == 0) && ((run.exhausted || d.regs.stat == 0xff) && not reset_latches)
      then (0xff, d, run.bus)
      else (let kept = record d { last_latch = d.regs.latch } in
          let (r, d1, s1) = reset_if reset_latches kept run.bus in
          (r, note_watchdog prev_out prev_known (note_dimmed d1), s1))

  unfoldable pub reg_read : Bool → Dev → St → ℕ × Dev × St
  reg_read reset_latches d s =
      if d.fw_busy
      then (0, d, s)
      else reg_done reset_latches d.regs.out d.out_known (reg_loop retries 0 d s)

  -- The answer, the latches that were read, and the device.
  unfoldable pub alarm_read : Dev → St → ℕ × ℕ × Dev × St
  alarm_read d s =
      let (r, d1, s1) = reg_read true d s in
      let latch = d1.last_latch in
      let d2 =
        if (r == 0xaa || r == 0xff) && not (latch == 0xff)
        then record d1 { latched = bit_or d1.latched latch }
        else d1 in
      (r, latch, record d2 { alarm = true }, s1)

  -- 0 is success, and true is -EIO.
  unfoldable pub status_clear : Dev → St → Bool × Dev × St
  status_clear d s =
      let stat = bit_and d.regs.stat (255 - stat_watchdog) in
      let (chosen, s1) = select_channel d.bus s in
      let (present, s2) = if chosen then reset s1 else (false, s1) in
      if not present
      then (true, d, s2)
      else (let s3 = write stat (write 0x00 (write 0x8D (write 0xCC (select d.addr s2)))) in
          let (_, s4) = reset s3 in
          if not (last_err s4 == 0)
          then (true, d, s4)
          else (false, record d { regs = record d.regs { stat = stat } }, s4))

  -- The levels that are set again, and how many failed.
  unfoldable pub restore_levels : List ℕ → ℕ → Dev → St → ℕ × Dev × St
  restore_levels [] failed d s = (failed, d, s)
  restore_levels (i ∷ is) failed d s =
      let lvl = (pin_of d i).level in
      let (r, d1, s1) =
        if not (is_pwm d i) || lvl == 0 then (confirm, d, s) else level_set b d i lvl s in
      restore_levels is (failed + (if r == confirm then 0 else 1)) d1 s1

  -- 0 is success, and true is -EAGAIN.
  unfoldable pub watchdog_restore : Dev → St → Bool × Dev × St
  watchdog_restore d s =
      if not d.wdt_pending
      then (false, d, s)
      else (let d0 = record d { wdt_pending = false; wdt_count = (d.wdt_count + 1) % 2 ^ 32 } in
          let (f1, d1, s1) = status_clear d0 s in
          let (r, d2, s2) =
            if d1.wdt_out_known then pio_set b d1 d1.wdt_out s1 else (confirm, d1, s1) in
          let failed = (if f1 then 1 else 0) + (if r == confirm then 0 else 1) in
          let (n, d3, s3) = restore_levels first8 failed d2 s2 in
          if d3.wdt_pending
          then (let (_, d4, s4) = status_clear (record d3 { wdt_pending = false }) s3 in
              (true, d4, s4))
          else (not (n == 0), d3, s3))
