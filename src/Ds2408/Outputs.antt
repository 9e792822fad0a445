-- ===== src/Ds2408/Outputs.antt =====
-- What `pio_set` and `level_set` leave in the device.
use in10dhost.Prelude.{ℕ, true, bit_or, ◌≡◌, ◌≢◌, arith, Bool-cases, inl, inr}
use in10dhost.Bus.{Bus, confirm}
use in10dhost.Ds2408.State.{Dev, pwm_mask}
use in10dhost.Ds2408.Wire.{pio_set, pio_done, latch_reset, note_out, level_set, keep_level, percent}

-- Nothing of the configuration, the pins and the wiring differs.
pub record SamePins (d d' : Dev) : Type 0 where
  pub bus : d'.bus ≡ d.bus
  pub addr : d'.addr ≡ d.addr
  pub cfg : d'.cfg ≡ d.cfg
  pub pins : d'.pins ≡ d.pins
  pub fw_busy : d'.fw_busy ≡ d.fw_busy
  pub wdt_pending : d'.wdt_pending ≡ d.wdt_pending
  pub latched : d'.latched ≡ d.latched

latch_reset-Same :
    (b : Bus) (d : Dev) (s : b.St)
    → SamePins d (latch_reset b d s).1 × ((latch_reset b d s).1.regs.out ≡ d.regs.out)
unfolding latch_reset
latch_reset-Same b d s = ground arith

note_out-Same :
    (pio : ℕ) (d : Dev)
    → SamePins d (note_out pio d)
      × ((note_out pio d).regs.out ≡ pio)
      × ((note_out pio d).out_known ≡ true)
unfolding note_out
note_out-Same pio d = ground arith

pio_done-ok :
    (b : Bus) (d : Dev) (pio : ℕ) (w : ℕ × b.St)
    → (pio_done b d pio w).0 ≡ confirm
    → SamePins d (pio_done b d pio w).1
      × ((pio_done b d pio w).1.regs.out ≡ pio)
      × ((pio_done b d pio w).1.out_known ≡ true)
unfolding pio_done
pio_done-ok b d pio (r, s1) h =
    ground (arith, latch_reset-Same b d s1, note_out-Same pio (latch_reset b d s1).1)

pio_done-fail :
    (b : Bus) (d : Dev) (pio : ℕ) (w : ℕ × b.St)
    → (pio_done b d pio w).0 ≢ confirm
    → (pio_done b d pio w).1 ≡ d
unfolding pio_done
pio_done-fail b d pio (r, s1) h = ground arith

-- A confirmed write leaves the latch as written, the bits of the PWM pins at 1.
pub pio_set-ok :
    (b : Bus) (d : Dev) (pio : ℕ) (s : b.St)
    → (pio_set b d pio s).0 ≡ confirm
    → SamePins d (pio_set b d pio s).1
      × ((pio_set b d pio s).1.regs.out ≡ bit_or pio (pwm_mask d))
      × ((pio_set b d pio s).1.out_known ≡ true)
unfolding pio_set
pio_set-ok b d pio s h = elim (Bool-cases d.fw_busy) [
  | inl busy ↦ absurd (ground arith)
  | inr free ↦ simp free (pio_done-ok b d _ _ (simp free at h))
]

-- A write that is not confirmed leaves the device as it was.
pub pio_set-fail :
    (b : Bus) (d : Dev) (pio : ℕ) (s : b.St)
    → (pio_set b d pio s).0 ≢ confirm
    → (pio_set b d pio s).1 ≡ d
unfolding pio_set
pio_set-fail b d pio s h = elim (Bool-cases d.fw_busy) [
  | inl busy ↦ simp busy
  | inr free ↦ simp free (pio_done-fail b d _ _ (λ e. h (simp free e)))
]

pub level_set-ok :
    (b : Bus) (d : Dev) (pio level : ℕ) (s : b.St)
    → (level_set b d pio level s).0 ≡ confirm
    → (level_set b d pio level s).1 ≡ keep_level d pio (percent level)
unfolding level_set
level_set-ok b d pio level s h = ground arith

pub level_set-fail :
    (b : Bus) (d : Dev) (pio level : ℕ) (s : b.St)
    → (level_set b d pio level s).0 ≢ confirm
    → (level_set b d pio level s).1 ≡ d
unfolding level_set
level_set-fail b d pio level s h = ground arith
