-- ===== src/Ds2408/Switch.antt =====
-- Switching: one pin, all pins by a mask, and the pins of a role.
use in10dhost.Prelude.{
  ℕ, ◌+◌, ◌^◌, Bool, ◌||◌, not, List, [], ◌∷◌, ◌==◌, if◌then◌else◌, bit_and, bit_or, xor, ◌-◌,
}
use in10dhost.Prelude.Bits.{first8, set_bit, clear_bit, test_bit}
use in10dhost.Bus.{Bus, confirm}
use in10dhost.Pin.{PinRole, no_role, eq_role}
use in10dhost.Ds2408.State.{Dev, pin_of, is_pwm, pin_is_on, pin_is_output}
use in10dhost.Ds2408.Wire.{pio_set, level_set}

-- `enum _pio_mode`
pub data PioMode : Type 0 where
  off level on toggle : PioMode

-- The level that `pin_switch` asks of a PWM pin, from the one it has and the one given.
unfoldable pub pwm_target : PioMode → ℕ → ℕ → ℕ
pwm_target toggle old lvl = if old == 0 then 100 else 0
pwm_target off old lvl = 0
pwm_target on old lvl = if lvl == 0 then 100 else lvl
pwm_target level old lvl = lvl

-- The output latch that it asks for on a plain pin: active low. `LEVEL` leaves 0.
unfoldable pub pio_target : PioMode → ℕ → ℕ → ℕ
pio_target toggle out pio =
    if bit_and out (2 ^ pio) == 0 then set_bit out pio else clear_bit out pio
pio_target on out pio = clear_bit out pio
pio_target off out pio = set_bit out pio
pio_target level out pio = 0

-- `popcount` of a byte
unfoldable pub popcount : List ℕ → ℕ → ℕ
popcount [] x = 0
popcount (i ∷ is) x = (if test_bit x i then 1 else 0) + popcount is x

module _ (b : Bus) where
  open b use {St}

  -- 0 is success and 255 is -1; the answer of `pio_set` is not looked at.
  unfoldable pub pin_switch : Dev → ℕ → PioMode → ℕ → St → ℕ × Dev × St
  pin_switch d pio state lvl s =
      if is_pwm d pio
      then (let (r, d1, s1) = level_set b d pio (pwm_target state (pin_of d pio).level lvl) s in
          (if r == confirm then 0 else 255, d1, s1))
      else (let (r, d1, s1) = pio_set b d (pio_target state d.regs.out pio) s in (0, d1, s1))

  -- One pin of `pio_mask_set`: a PWM pin is switched at once, a plain one noted.
  unfoldable pub mask_pin : ℕ → ℕ → ℕ × Dev × St → ℕ × Dev × St
  mask_pin wanted i (tmp, d, s) =
      let want = not (bit_and wanted (2 ^ i) == 0) in
      if is_pwm d i
      then (if xor want (pin_is_on d i)
          then (let (_, d1, s1) = pin_switch d i (if want then on else off) 0 s in (tmp, d1, s1))
          else (tmp, d, s))
      else (if want then clear_bit tmp i else set_bit tmp i, d, s)

  unfoldable pub mask_pins : List ℕ → ℕ → ℕ × Dev × St → ℕ × Dev × St
  mask_pins [] wanted w = w
  mask_pins (i ∷ is) wanted w = mask_pins is wanted (mask_pin wanted i w)

  unfoldable pub pio_mask_set : Dev → ℕ → St → Dev × St
  pio_mask_set d wanted s =
      let (tmp, d1, s1) = mask_pins first8 wanted (d.regs.out, d, s) in
      let (_, d2, s2) = pio_set b d1 tmp s1 in (d2, s2)

  -- The loop of `role_switch`: `set` and `clr` collect the plain outputs.
  pub record RoleRun : Type 0 where
    pub set_mask : ℕ
    pub clr_mask : ℕ
    pub failed : ℕ
    pub dev : Dev
    pub bus : St

  unfoldable pub role_pin : PinRole → Bool → ℕ → RoleRun → RoleRun
  role_pin r wanted i run =
      let d = run.dev in
      if not (eq_role (pin_of d i).role r)
        || not (pin_is_output d i)
        || not (xor (pin_is_on d i) wanted)
      then run
      else if is_pwm d i
      then (let (res, d1, s1) = pin_switch d i (if wanted then on else off) 0 run.bus in
          record run { failed = run.failed + (if res == 0 then 0 else 1); dev = d1; bus = s1 })
      else if wanted
      then record run { clr_mask = set_bit run.clr_mask i }
      else record run { set_mask = set_bit run.set_mask i }

  unfoldable pub role_pins : PinRole → Bool → List ℕ → RoleRun → RoleRun
  role_pins r wanted [] run = run
  role_pins r wanted (i ∷ is) run = role_pins r wanted is (role_pin r wanted i run)

  -- `(data | set) & ~clr` in one write, where there is something to write.
  unfoldable pub role_write : RoleRun → ℕ × Dev × St
  role_write run =
      let both = bit_or run.set_mask run.clr_mask in
      if both == 0
      then (run.failed, run.dev, run.bus)
      else (let (res, d1, s1) =
            pio_set b run.dev (bit_and (bit_or run.dev.regs.out run.set_mask) (255 - run.clr_mask))
              run.bus in
          (if res == confirm then run.failed else run.failed + popcount first8 both, d1, s1))

  unfoldable pub role_switch : Dev → PinRole → Bool → St → ℕ × Dev × St
  role_switch d r wanted s =
      if eq_role r no_role
      then (0, d, s)
      else role_write (
          role_pins r wanted first8
            (record { set_mask = 0; clr_mask = 0; failed = 0; dev = d; bus = s }))
