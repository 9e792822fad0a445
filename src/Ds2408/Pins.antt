-- ===== src/Ds2408/Pins.antt =====
-- `pin_switch`: what becomes of the pin that is switched, and of the other seven.
use in10dhost.Prelude.{
  ℕ, ◌<◌, Bool, true, false, not, List, [], ◌∷◌, ltb, ◌==◌, if◌then◌else◌, ◌≡◌, ◌≢◌, refl, arith,
  Bool-cases, inl, inr, length, set, get_or, zero, suc,
}
use in10dhost.Prelude.Bits.{
  test_bit, bit_and-pow, test_bit-bit_or, test_bit-mask_of, test_bit-set_bit, test_bit-clear_bit,
}
use in10dhost.Bus.{Bus, confirm}
use in10dhost.Pin.{Pin}
use in10dhost.Ds2408.State.{Dev, IsDev, pin_of, is_pwm, pwm_mask, pin_is_on, no_pin}
use in10dhost.Ds2408.Wire.{pio_set, level_set, keep_level, percent}
use in10dhost.Ds2408.Switch.{PioMode, off, level, on, toggle, pwm_target, pio_target, pin_switch}
use in10dhost.Ds2408.Outputs.{pio_set-ok, pio_set-fail, level_set-ok, level_set-fail}

-- What a mode makes of a pin that is on or not.
unfoldable pub wanted : PioMode → Bool → Bool
wanted toggle was = not was
wanted off was = false
wanted on was = true
wanted level was = was

-- The answer of the transfer that the pin's kind needs.
abbrev pub answer : (b : Bus) → Dev → ℕ → PioMode → ℕ → b.St → ℕ
answer b d pio m lvl s =
    if is_pwm d pio
    then (level_set b d pio (pwm_target m (pin_of d pio).level lvl) s).0
    else (pio_set b d (pio_target m d.regs.out pio) s).0

pub pin_is_on_lem :
    (d : Dev) (j : ℕ)
    → j < 8
    → pin_is_on d j ≡ (if is_pwm d j then ltb 0 (pin_of d j).level else not (test_bit d.regs.out j))
unfolding pin_is_on
pin_is_on_lem d j h = ground (arith, bit_and-pow d.regs.out j)

pub test_bit-pwm_mask : (d : Dev) (j : ℕ) → j < 8 → test_bit (pwm_mask d) j ≡ is_pwm d j
unfolding pwm_mask
test_bit-pwm_mask d j h = test_bit-mask_of (is_pwm d) j h

-- After a confirmed write of `x`: a plain pin is on exactly where `x` has a 0, a PWM pin is as before.
pub pin_is_on-pio_set :
    (b : Bus) (d : Dev) (x j : ℕ) (s : b.St)
    → (pio_set b d x s).0 ≡ confirm
    → j < 8
    → pin_is_on (pio_set b d x s).1 j ≡ (if is_pwm d j then pin_is_on d j else not (test_bit x j))
pin_is_on-pio_set b d x j s h hj =
    let (kept, written, _) = pio_set-ok b d x s h in
    ground (
      arith,
      pin_is_on_lem (pio_set b d x s).1 j hj,
      pin_is_on_lem d j hj,
      kept.cfg,
      kept.pins,
      written,
      test_bit-bit_or x (pwm_mask d) j,
      test_bit-pwm_mask d j hj,
    )

test_bit-pio_target :
    (m : PioMode) (out pio j : ℕ)
    → pio < 8
    → j < 8
    → m ≢ level
    → not (test_bit (pio_target m out pio) j)
      ≡ (if pio == j then wanted m (not (test_bit out pio)) else not (test_bit out j))
unfolding pio_target wanted
test_bit-pio_target toggle out pio j hp hj ne =
    ground
      (arith, bit_and-pow out pio, test_bit-set_bit out pio j, test_bit-clear_bit out pio j hp hj)
test_bit-pio_target off out pio j hp hj ne = ground (arith, test_bit-set_bit out pio j)
test_bit-pio_target on out pio j hp hj ne = ground (arith, test_bit-clear_bit out pio j hp hj)
test_bit-pio_target level out pio j hp hj ne = absurd (ne refl)

get_or-set :
    (xs : List Pin) (i j : ℕ) (v : Pin)
    → i < length xs
    → get_or (set xs i v) j no_pin ≡ (if i == j then v else get_or xs j no_pin)
get_or-set [] i j v h = absurd (omega arith)
get_or-set (x ∷ xs) zero zero v h = refl
get_or-set (x ∷ xs) zero (suc j) v h = ground arith
get_or-set (x ∷ xs) (suc i) zero v h = ground arith
get_or-set (x ∷ xs) (suc i) (suc j) v h = ground (arith, get_or-set xs i j v)

-- A level that is set turns a PWM pin on or off, and leaves the others.
pub pin_is_on-keep_level :
    (d : Dev) (pio pct j : ℕ)
    → IsDev d
    → pio < 8
    → j < 8
    → is_pwm d pio ≡ true
    → pin_is_on (keep_level d pio pct) j ≡ (if pio == j then ltb 0 pct else pin_is_on d j)
unfolding keep_level
pin_is_on-keep_level d pio pct j v hp hj hw = ground (
  arith,
  pin_is_on_lem (keep_level d pio pct) j hj,
  pin_is_on_lem d j hj,
  get_or-set d.pins pio j (record (pin_of d pio) { level = pct }) (omega arith),
  v.eight_pins,
)

pwm_target_on :
    (m : PioMode) (old lvl : ℕ)
    → m ≢ level
    → ltb 0 (percent (pwm_target m old lvl)) ≡ wanted m (ltb 0 old)
unfolding pwm_target wanted
pwm_target_on toggle old lvl ne = ground arith
pwm_target_on off old lvl ne = refl
pwm_target_on on old lvl ne = ground arith
pwm_target_on level old lvl ne = absurd (ne refl)

pin_switch_dev :
    (b : Bus) (d : Dev) (pio : ℕ) (m : PioMode) (lvl : ℕ) (s : b.St)
    → (pin_switch b d pio m lvl s).1 ≡ (
        if is_pwm d pio
        then (level_set b d pio (pwm_target m (pin_of d pio).level lvl) s).1
        else (pio_set b d (pio_target m d.regs.out pio) s).1)
unfolding pin_switch
pin_switch_dev b d pio m lvl s = ground arith

pin_switch-pwm :
    (b : Bus) (d : Dev) (pio j : ℕ) (m : PioMode) (lvl : ℕ) (s : b.St)
    → IsDev d
    → pio < 8
    → j < 8
    → m ≢ level
    → is_pwm d pio ≡ true
    → (level_set b d pio (pwm_target m (pin_of d pio).level lvl) s).0 ≡ confirm
    → pin_is_on (level_set b d pio (pwm_target m (pin_of d pio).level lvl) s).1 j
      ≡ (if pio == j then wanted m (pin_is_on d pio) else pin_is_on d j)
pin_switch-pwm b d pio j m lvl s v hp hj ne w h = rw (level_set-ok b d pio _ s h) (
    ground (
      arith,
      pin_is_on-keep_level d pio (percent (pwm_target m (pin_of d pio).level lvl)) j v hp hj w,
      pin_is_on_lem d pio hp,
      pwm_target_on m (pin_of d pio).level lvl ne,
    ))

pin_switch-plain :
    (b : Bus) (d : Dev) (pio j : ℕ) (m : PioMode) (s : b.St)
    → pio < 8
    → j < 8
    → m ≢ level
    → is_pwm d pio ≡ false
    → (pio_set b d (pio_target m d.regs.out pio) s).0 ≡ confirm
    → pin_is_on (pio_set b d (pio_target m d.regs.out pio) s).1 j
      ≡ (if pio == j then wanted m (pin_is_on d pio) else pin_is_on d j)
pin_switch-plain b d pio j m s hp hj ne w h = ground (
  arith,
  pin_is_on-pio_set b d (pio_target m d.regs.out pio) j s h hj,
  pin_is_on_lem d pio hp,
  pin_is_on_lem d j hj,
  test_bit-pio_target m d.regs.out pio j hp hj ne,
)

-- When `pin_switch` switches pin `pio` of a device off, on or over (not by LEVEL) and the
-- transfer that the kind of the pin needs is confirmed by 0xAA, that pin is afterwards off, on,
-- or what it was not, and each of the other pins is on exactly if it was before. This holds for
-- plain and for PWM pins of a device whose tables have their sizes.
pub pin_switch-pins :
    (b : Bus) (d : Dev) (pio j : ℕ) (m : PioMode) (lvl : ℕ) (s : b.St)
    → IsDev d
    → pio < 8
    → j < 8
    → m ≢ level
    → answer b d pio m lvl s ≡ confirm
    → pin_is_on (pin_switch b d pio m lvl s).1 j
      ≡ (if pio == j then wanted m (pin_is_on d pio) else pin_is_on d j)
pin_switch-pins b d pio j m lvl s v hp hj ne h =
    rw (pin_switch_dev b d pio m lvl s) (elim (Bool-cases (is_pwm d pio)) [
      | inl w ↦ simp w (pin_switch-pwm b d pio j m lvl s v hp hj ne w (simp w at h))
      | inr w ↦ simp w (pin_switch-plain b d pio j m s hp hj ne w (simp w at h))
    ])

-- When the transfer of `pin_switch` is not confirmed, the device is as before. The answer is then
-- 255 for a PWM pin, and 0, as for a success, for a plain one.
pub pin_switch-fail :
    (b : Bus) (d : Dev) (pio : ℕ) (m : PioMode) (lvl : ℕ) (s : b.St)
    → answer b d pio m lvl s ≢ confirm
    → ((pin_switch b d pio m lvl s).1 ≡ d)
      × ((pin_switch b d pio m lvl s).0 ≡ (if is_pwm d pio then 255 else 0))
unfolding pin_switch
pin_switch-fail b d pio m lvl s h = elim (Bool-cases (is_pwm d pio)) [
  | inl w ↦
      ground (
        arith,
        level_set-fail b d pio (pwm_target m (pin_of d pio).level lvl) s (λ e. h (simp w e)),
      )
  | inr w ↦ ground (arith, pio_set-fail b d (pio_target m d.regs.out pio) s (λ e. h (simp w e)))
]
