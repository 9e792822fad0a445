-- ===== src/Ds2408/Masks.antt =====
-- `pio_mask_set` on a bus that confirms, and what the bit field of the outputs is afterwards.
use in10dhost.Prelude.{
  ℕ, ◌<◌, Bool, true, false, not, List, [], ◌∷◌, ◌==◌, if◌then◌else◌, ◌≡◌, ◌≢◌, refl, arith,
  Bool-cases, inl, inr, ℕ_discrete, bit_and, ◌^◌, length-set, get_or, subst, sym, ap, ◌∙◌, ◌||◌,
}
use mathlib.Core.Bool.{xor}
use in10dhost.Prelude.Bits.{
  test_bit, set_bit, clear_bit, bit_and-pow, test_bit-set_bit, test_bit-clear_bit, first8, elem,
  elem-first8, eq_of_bits, mask_of-lt, test_bit-mask_of,
}
use in10dhost.Bus.{Bus, confirm}
use in10dhost.Ds2408.State.{Dev, IsDev, is_pwm, pin_is_on, pio_mask, pin_of, no_pin}
use in10dhost.Ds2408.Wire.{pio_set, level_set, keep_level, percent}
use in10dhost.Ds2408.Switch.{
  PioMode, on, off, pwm_target, pin_switch, mask_pin, mask_pins, pio_mask_set,
}
use in10dhost.Ds2408.Outputs.{level_set-ok}
use in10dhost.Ds2408.Pins.{pin_is_on-pio_set, pin_switch-pins, wanted, answer}

-- Every transfer that a device makes outside an update is confirmed.
pub record Confirms (b : Bus) : Type 0 where
  pub pio : (d : Dev) (x : ℕ) (s : b.St) → d.fw_busy ≡ false → (pio_set b d x s).0 ≡ confirm
  pub lvl : (d : Dev) (i v : ℕ) (s : b.St) → d.fw_busy ≡ false → (level_set b d i v s).0 ≡ confirm

abbrev pub mode_of : Bool → PioMode
mode_of want = if want then on else off

pub keep_level-IsDev : (d : Dev) (i pct : ℕ) → IsDev d → IsDev (keep_level d i pct)
unfolding keep_level
keep_level-IsDev d i pct v = record {
  eight_pins =
      ground (
        arith,
        length-set d.pins i (record (get_or d.pins i no_pin) { level = pct }),
        v.eight_pins,
      );
  cfg_size = v.cfg_size;
  out_byte = v.out_byte;
}

pub keep_level_rest :
    (d : Dev) (i pct : ℕ)
    → ((keep_level d i pct).cfg ≡ d.cfg) × ((keep_level d i pct).fw_busy ≡ d.fw_busy)
unfolding keep_level
keep_level_rest d i pct = (refl, refl)

-- What holds of the collected latch and the device, for the pins that are done.
record MaskRun (b : Bus) (x : ℕ) (d0 : Dev) (done : ℕ → Bool) (w : ℕ × Dev × b.St) : Type 0 where
  dev : IsDev w.1
  cfg : w.1.cfg ≡ d0.cfg
  free : w.1.fw_busy ≡ false
  dimmed : (j : ℕ) → j < 8 → is_pwm d0 j ≡ true → done j ≡ true → pin_is_on w.1 j ≡ test_bit x j
  plain :
      (j : ℕ) → j < 8 → is_pwm d0 j ≡ false → done j ≡ true → test_bit w.0 j ≡ not (test_bit x j)

-- A dimmed pin that is switched, where that is confirmed.
pub pin_switch_level :
    (b : Bus) (d : Dev) (i : ℕ) (m : PioMode) (s : b.St)
    → is_pwm d i ≡ true
    → answer b d i m 0 s ≡ confirm
    → (pin_switch b d i m 0 s).1 ≡ keep_level d i (percent (pwm_target m (pin_of d i).level 0))
unfolding pin_switch
pin_switch_level b d i m s hw h = simp hw (level_set-ok b d i _ s (simp hw at h))

pub dimmed_answer :
    (b : Bus) (c : Confirms b) (d : Dev) (i : ℕ) (m : PioMode) (s : b.St)
    → d.fw_busy ≡ false
    → is_pwm d i ≡ true
    → answer b d i m 0 s ≡ confirm
dimmed_answer b c d i m s free hw = simp hw (c.lvl d i _ s free)

pub switched_on :
    (b : Bus) (c : Confirms b) (d : Dev) (i j : ℕ) (want : Bool) (s : b.St)
    → IsDev d
    → d.fw_busy ≡ false
    → i < 8
    → j < 8
    → is_pwm d i ≡ true
    → pin_is_on (pin_switch b d i (mode_of want) 0 s).1 j ≡ (if i == j then want else pin_is_on d j)
unfolding wanted
switched_on b c d i j true s v free hi hj hw =
    pin_switch-pins b d i j on 0 s v hi hj (λ e. cc) (dimmed_answer b c d i on s free hw)
switched_on b c d i j false s v free hi hj hw =
    pin_switch-pins b d i j off 0 s v hi hj (λ e. cc) (dimmed_answer b c d i off s free hw)

xor_same : (a b : Bool) → xor a b ≡ false → a ≡ b
unfolding xor
xor_same true true h = refl
xor_same false false h = refl
xor_same true false h = h
xor_same false true h = sym h

-- A plain pin that is noted in the latch: 0 is on.
abbrev noted : ℕ → ℕ → Bool → ℕ
noted t i want = if want then clear_bit t i else set_bit t i

noted_at :
    (t x i : ℕ) → i < 8 → test_bit (noted t i (not (bit_and x (2 ^ i) == 0))) i ≡ not (test_bit x i)
noted_at t x i h =
    ground (arith, test_bit-set_bit t i i, test_bit-clear_bit t i i h, bit_and-pow x i)

noted_other :
    (t i j : ℕ) (want : Bool) → i < 8 → j < 8 → i ≢ j → test_bit (noted t i want) j ≡ test_bit t j
noted_other t i j want h hj n =
    ground (arith, hj, test_bit-set_bit t i j, test_bit-clear_bit t i j h)

-- A pin that is as wanted already stays among those that are done.
kept_on :
    (i j : ℕ) (f g done : ℕ → Bool)
    → f i ≡ g i
    → (i ≢ j → done j ≡ true → f j ≡ g j)
    → (i == j || done j) ≡ true
    → f j ≡ g j
kept_on i j f g done at rest h = elim (ℕ_discrete i j) [
  | yes e ↦ subst (λ k. f k ≡ g k) e at
  | no n ↦ rest n (ground (arith, h, n))
]

module _ (b : Bus) (c : Confirms b) (x : ℕ) (d0 : Dev) (v0 : IsDev d0) where
  switched_Run :
      (i : ℕ) (done : ℕ → Bool) (w : ℕ × Dev × b.St) (want : Bool)
      → i < 8
      → want ≡ test_bit x i
      → is_pwm w.1 i ≡ true
      → MaskRun b x d0 done w
      → MaskRun b x d0
          (λ j. i == j || done j)
          (let (_, d1, s1) = pin_switch b w.1 i (mode_of want) 0 w.2 in (w.0, d1, s1))
  switched_Run i done (t, d, s) want hi e hw r =
      let k =
        pin_switch_level b d i (mode_of want) s hw
          (dimmed_answer b c d i (mode_of want) s r.free hw) in
      let p = percent (pwm_target (mode_of want) (pin_of d i).level 0) in
      record {
        dev = subst IsDev (sym k) (keep_level-IsDev d i p r.dev);
        cfg = ap (λ (z : Dev). z.cfg) k ∙ (keep_level_rest d i p).0 ∙ r.cfg;
        free = ap (λ (z : Dev). z.fw_busy) k ∙ (keep_level_rest d i p).1 ∙ r.free;
        dimmed = λ j l pw dn.
            ground
              (arith, switched_on b c d i j want s r.dev r.free hi l hw, r.dimmed j l pw, e, dn);
        plain = λ j l pw dn. ground (arith, r.plain j l pw, r.cfg, hw, pw, dn);
      }

  mask_pin-Run :
      (i : ℕ) (done : ℕ → Bool) (w : ℕ × Dev × b.St)
      → i < 8
      → MaskRun b x d0 done w
      → MaskRun b x d0 (λ j. i == j || done j) (mask_pin b x i w)
  unfolding mask_pin
  mask_pin-Run i done (t, d, s) hi r = elim (Bool-cases (is_pwm d i)) [
    | inl w ↦ elim (Bool-cases (xor (not (bit_and x (2 ^ i) == 0)) (pin_is_on d i))) [
      | inl go ↦
          rw (w, go)
            (switched_Run i done (t, d, s) (not (bit_and x (2 ^ i) == 0)) hi
              (ground (arith, bit_and-pow x i)) w r)
      | inr keep ↦
          rw (w, keep)
            (record {
              dev = r.dev;
              cfg = r.cfg;
              free = r.free;
              dimmed = λ j l pw dn.
                  kept_on i j (pin_is_on d) (test_bit x) done
                    (ground (arith, xor_same _ _ keep, bit_and-pow x i)) (λ n. r.dimmed j l pw) dn;
              plain = λ j l pw dn. ground (arith, r.plain j l pw, r.cfg, w, pw, dn);
            })
    ]
    | inr p ↦ rw p (record {
      dev = r.dev;
      cfg = r.cfg;
      free = r.free;
      dimmed = λ j l pw dn. ground (arith, r.dimmed j l pw, r.cfg, p, pw, dn);
      plain = λ j l pw dn.
          kept_on i j (test_bit (noted t i (not (bit_and x (2 ^ i) == 0))))
            (λ k. not (test_bit x k)) done (noted_at t x i hi)
            (λ n o. noted_other t i j (not (bit_and x (2 ^ i) == 0)) hi l n ∙ r.plain j l pw o) dn;
    })
  ]

  mask_pins-Run :
      (is : List ℕ) (done : ℕ → Bool) (w : ℕ × Dev × b.St)
      → ((i : ℕ) → elem i is ≡ true → i < 8)
      → MaskRun b x d0 done w
      → MaskRun b x d0 (λ j. done j || elem j is) (mask_pins b is x w)
  unfolding mask_pins elem
  mask_pins-Run [] done w small r = record {
    dev = r.dev;
    cfg = r.cfg;
    free = r.free;
    dimmed = λ j l pw dn. r.dimmed j l pw (ground arith);
    plain = λ j l pw dn. r.plain j l pw (ground arith);
  }
  mask_pins-Run (i ∷ is) done w small r =
      let q =
        mask_pins-Run is (λ j. i == j || done j) (mask_pin b x i w) (λ k e. small k (ground arith))
          (mask_pin-Run i done w (small i (ground arith)) r) in
      record {
        dev = q.dev;
        cfg = q.cfg;
        free = q.free;
        dimmed = λ j l pw dn. q.dimmed j l pw (ground arith);
        plain = λ j l pw dn. q.plain j l pw (ground arith);
      }

  start-Run : (s : b.St) → d0.fw_busy ≡ false → MaskRun b x d0 (λ j. false) (d0.regs.out, d0, s)
  start-Run s free = record {
    dev = v0;
    cfg = refl;
    free = free;
    dimmed = λ j l pw dn. absurd (ground (arith, dn));
    plain = λ j l pw dn. absurd (ground (arith, dn));
  }

  mask_pin_on :
      (s : b.St) (j : ℕ)
      → d0.fw_busy ≡ false
      → j < 8
      → pin_is_on (pio_mask_set b d0 x s).0 j ≡ test_bit x j
  unfolding pio_mask_set elem
  mask_pin_on s j free hj =
      let w = mask_pins b first8 x (d0.regs.out, d0, s) in
      let q =
        mask_pins-Run first8 (λ j. false) (d0.regs.out, d0, s) (λ i e. ground arith)
          (start-Run s free) in
      ground (
        arith,
        pin_is_on-pio_set b w.1 w.0 j w.2 (c.pio w.1 w.0 w.2 q.free) hj,
        q.dimmed j hj,
        q.plain j hj,
        q.cfg,
        elem-first8 j hj,
      )

-- Setting the eight outputs at once is setting one byte: after `pio_mask_set` to a byte the byte
-- that `pio_mask` shows is that one, plain and PWM pins alike, for a device whose tables have
-- their sizes and that is not being updated, on a bus that confirms its transfers.
pub pio_mask-set :
    (b : Bus) (d : Dev) (x : ℕ) (s : b.St)
    → Confirms b
    → IsDev d
    → d.fw_busy ≡ false
    → x < 256
    → pio_mask (pio_mask_set b d x s).0 ≡ x
unfolding pio_mask
pio_mask-set b d x s c v free h =
    eq_of_bits 8 _ _ (mask_of-lt (pin_is_on (pio_mask_set b d x s).0)) h (λ i l.
      test_bit-mask_of (pin_is_on (pio_mask_set b d x s).0) i l ∙ mask_pin_on b c x d v s i free l)
