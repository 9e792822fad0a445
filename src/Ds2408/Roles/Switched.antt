-- ===== src/Ds2408/Roles/Switched.antt =====
-- What `role_switch` leaves: the one write of the plain outputs, and the whole.
use in10dhost.Prelude.{
  ℕ, ◌-◌, ◌<◌, Bool, true, false, not, ◌&&◌, ◌||◌, ◌==◌, if◌then◌else◌, ◌≡◌, refl, arith,
  Bool-cases, inl, inr, bit_and, bit_or,
}
use mathlib.Core.Bool.{xor}
use in10dhost.Prelude.Bits.{
  test_bit, test_bit-bit_and, test_bit-bit_or, test_bit-complement, test_bit-zero, first8, elem,
  elem-first8,
}
use in10dhost.Bus.{Bus}
use in10dhost.Pin.{PinRole, no_role, eq_role}
use in10dhost.Ds2408.State.{Dev, IsDev, is_pwm, pin_is_on}
use in10dhost.Ds2408.Wire.{pio_set}
use in10dhost.Ds2408.Switch.{RoleRun, role_pins, role_write, role_switch}
use in10dhost.Ds2408.Pins.{pin_is_on_lem, pin_is_on-pio_set}
use in10dhost.Ds2408.Masks.{Confirms}
use in10dhost.Ds2408.Roles.{meant, Run, plain_same, role_pins-Run}

module _ (b : Bus) (c : Confirms b) (r : PinRole) (wanted : Bool) (d0 : Dev) where
  -- After the run: no plain pin is left to be switched, or the masks name it.
  nothing_left :
      (done : ℕ → Bool) (run : RoleRun b) (j : ℕ)
      → Run b c r wanted d0 done run
      → j < 8
      → done j ≡ true
      → bit_or run.set_mask run.clr_mask ≡ 0
      → pin_is_on run.dev j ≡ (if meant d0 r j then wanted else pin_is_on d0 j)
  unfolding xor
  nothing_left done run j q l dn e = elim (Bool-cases (is_pwm d0 j)) [
    | inl w ↦ ground (arith, dn, q.dimmed j l w)
    | inr w ↦
        let clear : test_bit (bit_or run.set_mask run.clr_mask) j ≡ false =
          rw e (test_bit-zero j) in
        ground (
          arith,
          dn,
          w,
          clear,
          test_bit-bit_or run.set_mask run.clr_mask j,
          q.sets j l,
          q.clears j l,
          plain_same d0 run.dev j l q.cfg q.out w,
        )
  ]

  abbrev latch : RoleRun b → ℕ
  latch run = bit_and (bit_or run.dev.regs.out run.set_mask) (255 - run.clr_mask)

  latch_bit :
      (run : RoleRun b) (j : ℕ)
      → run.clr_mask < 256
      → j < 8
      → test_bit (latch run) j ≡ (
          (test_bit run.dev.regs.out j || test_bit run.set_mask j) && not (test_bit run.clr_mask j))
  latch_bit run j h l = ground (
    arith,
    test_bit-bit_and (bit_or run.dev.regs.out run.set_mask) (255 - run.clr_mask) j,
    test_bit-bit_or run.dev.regs.out run.set_mask j,
    test_bit-complement 8 run.clr_mask j h l,
  )

  all_written :
      (done : ℕ → Bool) (run : RoleRun b) (j : ℕ)
      → Run b c r wanted d0 done run
      → j < 8
      → done j ≡ true
      → pin_is_on (pio_set b run.dev (latch run) run.bus).1 j
        ≡ (if meant d0 r j then wanted else pin_is_on d0 j)
  unfolding xor
  all_written done run j q l dn =
      let at =
        pin_is_on-pio_set b run.dev (latch run) j run.bus (c.pio run.dev (latch run) run.bus q.free)
          l in
      elim (Bool-cases (is_pwm d0 j)) [
        | inl w ↦ ground (arith, dn, at, q.cfg, q.dimmed j l w)
        | inr w ↦ ground (
          arith,
          dn,
          w,
          at,
          q.cfg,
          q.out,
          latch_bit run j q.clr_byte l,
          pin_is_on_lem d0 j l,
          q.sets j l,
          q.clears j l,
        )
      ]

  write_pins :
      (done : ℕ → Bool) (run : RoleRun b) (j : ℕ)
      → Run b c r wanted d0 done run
      → j < 8
      → done j ≡ true
      → ((role_write b run).0 ≡ 0)
        × (pin_is_on (role_write b run).1 j ≡ (if meant d0 r j then wanted else pin_is_on d0 j))
  unfolding role_write
  write_pins done run j q l dn = elim (Bool-cases (bit_or run.set_mask run.clr_mask == 0)) [
    | inl e ↦ rw e (q.good, nothing_left done run j q l dn (ground arith))
    | inr e ↦
        rw (e, c.pio run.dev (latch run) run.bus q.free) (q.good, all_written done run j q l dn)
  ]

  start-Run :
      (s : b.St)
      → IsDev d0
      → d0.fw_busy ≡ false
      → Run b c r wanted d0
          (λ j. false)
          (record { set_mask = 0; clr_mask = 0; failed = 0; dev = d0; bus = s })
  start-Run s v free = record {
    dev = v;
    cfg = refl;
    free = free;
    roles = λ j. refl;
    out = refl;
    good = refl;
    dimmed = λ j l pw. refl;
    sets = λ j l. test_bit-zero j;
    clears = λ j l. test_bit-zero j;
    clr_byte = omega arith;
  }

-- Switching a role, other than none, on or off on a device whose tables have their sizes and that
-- is not being updated fails for no pin, and each output with that role is on, or off,
-- afterwards, while each other pin is on exactly if it was before. Every transfer of the device
-- is confirmed.
pub role_switch-pins :
    (b : Bus) (c : Confirms b) (d : Dev) (r : PinRole) (wanted : Bool) (s : b.St) (j : ℕ)
    → IsDev d
    → d.fw_busy ≡ false
    → eq_role r no_role ≡ false
    → j < 8
    → ((role_switch b d r wanted s).0 ≡ 0)
      × (pin_is_on (role_switch b d r wanted s).1 j
          ≡ (if meant d r j then wanted else pin_is_on d j))
unfolding role_switch elem
role_switch-pins b c d r wanted s j v free some l = rw some (
    write_pins b c r wanted d (λ j. false || elem j first8)
      (role_pins b r wanted first8
        (record { set_mask = 0; clr_mask = 0; failed = 0; dev = d; bus = s }))
      j
      (role_pins-Run b c r wanted d first8 (λ j. false)
        (record { set_mask = 0; clr_mask = 0; failed = 0; dev = d; bus = s }) (λ i e. ground arith)
        (start-Run b c r wanted d s v free))
      l (ground (arith, elem-first8 j l)))
