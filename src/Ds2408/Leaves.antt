-- ===== src/Ds2408/Leaves.antt =====
-- The leaves of a ds2408 that drive and read its pins: BYTE, PIO.*, sensed.*, latch.* and level.*.
-- A handler works on the device and the bus, under the device's lock.
use in10dhost.Prelude.{
  ℕ, Bool, true, false, ◌||◌, not, Option, none, some, Text, length, ltb, ◌==◌, if◌then◌else◌,
}
use in10dhost.Prelude.Int.{ℤ, pos, negsuc}
use in10dhost.Prelude.Bits.{test_bit}
use in10dhost.Numbers.{ok, err}
use in10dhost.Numbers.Decimal.{decimal}
use in10dhost.Parse.{parse_num}
use in10dhost.Switches.Line.{low_byte}
use in10dhost.Switches.Table.{einval, enoent, eagain}
use in10dhost.FsTable.{Reply, text, took, error}
use in10dhost.Bus.{Bus, confirm}
use in10dhost.Ds2408.State.{Dev, is_pwm, cfg_of, pin_of, pio_mask, pin_is_output}
use in10dhost.Ds2408.Wire.{pio_set, level_set, latch_reset}
use in10dhost.Ds2408.Switch.{on, off, pin_switch, pio_mask_set}
use in10dhost.Ds2408.Registers.{reg_read}
use in10dhost.Ds2408.Formats.{idx_all, fmt_bits, bit_text, trimmed, parse_all, parse_byte}

-- A pin's configuration that is none: 0 and 0xff.
unconfigured : Dev → ℕ → Bool
unconfigured d i = cfg_of d i == 0xff || cfg_of d i == 0

unfoldable pub vis_pio : Dev → ℕ → Bool
vis_pio d idx = if ltb idx idx_all then pin_is_output d idx else true

unfoldable pub vis_sensed : Dev → ℕ → Bool
unfolding unconfigured
vis_sensed d idx =
    if not (ltb idx idx_all)
    then true
    else if unconfigured d idx
    then false
    else not (vis_pio d idx)

unfoldable pub vis_latched : Dev → ℕ → Bool
unfolding unconfigured
vis_latched d idx = if not (ltb idx idx_all) then true else not (unconfigured d idx)

unfoldable pub vis_level : Dev → ℕ → Bool
vis_level d idx = is_pwm d idx

module _ (long_max : ℕ) (b : Bus) where
  open b use {St}

  abbrev pub Seen : Type 0
  Seen = Dev × St

  -- `if (uncached) reg_read(false);`
  unfoldable pub refresh : Bool → Seen → Seen
  refresh uncached (d, s) =
      let (_, d1, s1) = reg_read b false d s in if uncached then (d1, s1) else (d, s)

  unfoldable pub r_byte : Bool → Seen → Reply × Seen
  r_byte uncached w = let (d, s) = refresh uncached w in (text (decimal d.regs.out), (d, s))

  -- What a number that is written is used for.
  with_num : Text → (ℤ → Seen → Reply × Seen) → Seen → Reply × Seen
  with_num buf use_it w = elim (parse_num long_max buf) [
    | err e ↦ (error einval, w)
    | ok v ↦ use_it v w
  ]

  unfoldable pub w_byte : Text → Seen → Reply × Seen
  unfolding with_num
  w_byte buf w =
      with_num buf
        (λ v (d, s). let (_, d1, s1) = pio_set b d (low_byte v) s in (took (length buf), (d1, s1)))
        w

  unfoldable pub r_pio : Bool → ℕ → Seen → Reply × Seen
  r_pio uncached idx w =
      let (d, s) = refresh uncached w in
      let shown =
        if not (ltb idx idx_all)
        then fmt_bits idx (pio_mask d)
        else if is_pwm d idx
        then decimal (pin_of d idx).level
        else bit_text (not (test_bit d.regs.out idx)) in
      (text shown, (d, s))

  unfoldable pub parse_bits : Text → ℕ → Option ℕ
  parse_bits buf idx =
      if idx == idx_all then parse_all (trimmed buf) else parse_byte long_max (trimmed buf)

  unfoldable pub w_pio_all : Text → ℕ → Seen → Reply × Seen
  unfolding parse_bits
  w_pio_all buf idx (d, s) = elim (parse_bits buf idx) [
    | none ↦ (error einval, (d, s))
    | some bits ↦ (took (length buf), pio_mask_set b d bits s)
  ]

  unfoldable pub w_pio : Text → ℕ → Seen → Reply × Seen
  unfolding with_num
  w_pio buf idx w =
      let one =
        with_num buf
          (λ v (d, s).
            let lvl = low_byte v in
            let (_, d1, s1) = pin_switch b d idx (if lvl == 0 then off else on) lvl s in
            (took (length buf), (d1, s1)))
          w in
      if ltb idx idx_all then one else w_pio_all buf idx w

  unfoldable pub r_sensed : Bool → ℕ → Seen → Reply × Seen
  r_sensed uncached idx w =
      let (d, s) = refresh uncached w in (text (fmt_bits idx d.regs.ls), (d, s))

  unfoldable pub r_latched : ℕ → Seen → Reply × Seen
  r_latched idx (d, s) = (text (fmt_bits idx d.latched), (d, s))

  -- Any text clears all latches, and the alarm.
  unfoldable pub w_latched : Text → Seen → Reply × Seen
  w_latched buf (d, s) =
      let (_, d1, s1) = if d.regs.latch == 0 then (confirm, d, s) else latch_reset b d s in
      (
        took (length buf),
        (record d1 { regs = record d1.regs { latch = 0 }; latched = 0; alarm = false }, s1),
      )

  unfoldable pub r_level : ℕ → Seen → Reply × Seen
  r_level idx (d, s) =
      if vis_level d idx
      then (text (decimal (pin_of d idx).level), (d, s))
      else (error enoent, (d, s))

  level_of : ℕ → Text → ℤ → Seen → Reply × Seen
  level_of idx buf (negsuc n) w = (error einval, w)
  level_of idx buf (pos pct) (d, s) =
      let (r, d1, s1) = level_set b d idx pct s in
      if ltb 100 pct
      then (error einval, (d, s))
      else (if r == confirm then took (length buf) else error eagain, (d1, s1))

  unfoldable pub w_level : Text → ℕ → Seen → Reply × Seen
  unfolding with_num level_of
  w_level buf idx w =
      let done = with_num buf (level_of idx buf) w in
      if vis_level w.0 idx then done else (error enoent, w)
