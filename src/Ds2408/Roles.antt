-- ===== src/Ds2408/Roles.antt =====
-- The loop of `role_switch` on a bus that confirms: what holds of the pins that are done.
pub mod Switched
use in10dhost.Prelude.{
  ℕ, zero, suc, ◌+◌, ◌-◌, ◌<◌, Bool, true, false, not, ◌&&◌, ◌||◌, List, [], ◌∷◌, ◌==◌,
  if◌then◌else◌, ◌≡◌, ◌≢◌, refl, arith, Bool-cases, inl, inr, get_or, set, subst, sym, ap, ◌∙◌,
  bit_and, bit_or, ℕ_discrete,
}
use mathlib.Core.Bool.{xor}
use in10dhost.Prelude.Bits.{
  test_bit, set_bit, clear_bit, test_bit-set_bit, test_bit-bit_and, test_bit-bit_or,
  test_bit-complement, test_bit-zero, set_bit-lt, first8, elem, elem-first8,
}
use in10dhost.Bus.{Bus, confirm}
use in10dhost.Pin.{Pin, PinRole, no_role, eq_role}
use in10dhost.Ds2408.State.{Dev, IsDev, is_pwm, pin_is_on, pin_is_output, pin_of, no_pin}
use in10dhost.Ds2408.Wire.{pio_set, keep_level, percent}
use in10dhost.Ds2408.Switch.{
  PioMode, on, off, pwm_target, pin_switch, RoleRun, role_pin, role_pins, role_write, role_switch,
}
use in10dhost.Ds2408.Pins.{pin_is_on_lem, pin_is_on-pio_set}
use in10dhost.Ds2408.Masks.{
  Confirms, keep_level-IsDev, keep_level_rest, pin_switch_level, dimmed_answer, switched_on,
  mode_of,
}

-- The pins that `role_switch` is about: outputs with that role.
abbrev pub meant : Dev → PinRole → ℕ → Bool
meant d r i = eq_role (pin_of d i).role r && pin_is_output d i

role-set_level :
    (xs : List Pin) (i j l : ℕ)
    → (get_or (set xs i (record (get_or xs i no_pin) { level = l })) j no_pin).role
      ≡ (get_or xs j no_pin).role
role-set_level [] i j l = refl
role-set_level (x ∷ xs) zero zero l = refl
role-set_level (x ∷ xs) zero (suc j) l = refl
role-set_level (x ∷ xs) (suc i) zero l = refl
role-set_level (x ∷ xs) (suc i) (suc j) l = role-set_level xs i j l

role-keep_level : (d : Dev) (i j l : ℕ) → (pin_of (keep_level d i l) j).role ≡ (pin_of d j).role
unfolding keep_level
role-keep_level d i j l = role-set_level d.pins i j l

keep_level_out : (d : Dev) (i l : ℕ) → (keep_level d i l).regs.out ≡ d.regs.out
unfolding keep_level
keep_level_out d i l = refl

output_same : (d e : Dev) (j : ℕ) → e.cfg ≡ d.cfg → pin_is_output e j ≡ pin_is_output d j
unfolding pin_is_output
output_same d e j h = ground (arith, h)

plain_same :
    (d e : Dev) (j : ℕ)
    → j < 8
    → e.cfg ≡ d.cfg
    → e.regs.out ≡ d.regs.out
    → is_pwm d j ≡ false
    → pin_is_on e j ≡ pin_is_on d j
plain_same d e j hj hc ho hw =
    ground (arith, pin_is_on_lem d j hj, pin_is_on_lem e j hj, hc, ho, hw)

confirmed_zero :
    (b : Bus) (c : Confirms b) (d : Dev) (i : ℕ) (m : PioMode) (s : b.St)
    → d.fw_busy ≡ false
    → is_pwm d i ≡ true
    → (pin_switch b d i m 0 s).0 ≡ 0
unfolding pin_switch
confirmed_zero b c d i m s free hw =
    rw hw (ground (arith, c.lvl d i (pwm_target m (pin_of d i).level 0) s free))

module _ (b : Bus) (c : Confirms b) (r : PinRole) (wanted : Bool) (d0 : Dev) where
  -- A plain output that is not yet as it should be.
  abbrev needed : ℕ → Bool
  needed j = meant d0 r j && (not (is_pwm d0 j) && xor (pin_is_on d0 j) wanted)

  record Run (done : ℕ → Bool) (run : RoleRun b) : Type 0 where
    dev : IsDev run.dev
    cfg : run.dev.cfg ≡ d0.cfg
    free : run.dev.fw_busy ≡ false
    roles : (j : ℕ) → (pin_of run.dev j).role ≡ (pin_of d0 j).role
    out : run.dev.regs.out ≡ d0.regs.out
    good : run.failed ≡ 0
    dimmed :
        (j : ℕ)
        → j < 8
        → is_pwm d0 j ≡ true
        → pin_is_on run.dev j ≡ (if done j && meant d0 r j then wanted else pin_is_on d0 j)
    sets : (j : ℕ) → j < 8 → test_bit run.set_mask j ≡ (done j && (needed j && not wanted))
    clears : (j : ℕ) → j < 8 → test_bit run.clr_mask j ≡ (done j && (needed j && wanted))
    clr_byte : run.clr_mask < 256

  meant-Run :
      (done : ℕ → Bool) (run : RoleRun b) (i : ℕ) → Run done run → meant run.dev r i ≡ meant d0 r i
  meant-Run done run i q = ground (arith, q.roles i, output_same d0 run.dev i q.cfg)

  -- Whether a pin is left alone.
  abbrev skipped : Dev → ℕ → Bool
  skipped d i = not (meant d r i) || not (xor (pin_is_on d i) wanted)

  -- A pin that is left alone is as it should be.
  settled :
      (done : ℕ → Bool) (run : RoleRun b) (i : ℕ)
      → skipped run.dev i ≡ true
      → Run done run
      → (meant d0 r i ≡ true → pin_is_on run.dev i ≡ wanted)
  unfolding xor
  settled done run i h q m = ground (arith, meant-Run done run i q)

  kept_Run :
      (i : ℕ) (done : ℕ → Bool) (run : RoleRun b)
      → i < 8
      → skipped run.dev i ≡ true
      → Run done run
      → Run (λ j. i == j || done j) run
  unfolding xor
  kept_Run i done run hi h q = record {
    dev = q.dev;
    cfg = q.cfg;
    free = q.free;
    roles = q.roles;
    out = q.out;
    good = q.good;
    dimmed = λ j l pw. elim (ℕ_discrete i j) [
      | yes e ↦
          subst
            (λ k.
              is_pwm d0 k ≡ true
              → pin_is_on run.dev k
                ≡ (if (i == k || done k) && meant d0 r k then wanted else pin_is_on d0 k))
            e (λ w. ground (arith, settled done run i h q, q.dimmed i hi w)) pw
      | no n ↦ ground (arith, n, q.dimmed j l pw)
    ];
    sets = λ j l. elim (ℕ_discrete i j) [
      | yes e ↦
          subst (λ k. test_bit run.set_mask k ≡ ((i == k || done k) && (needed k && not wanted))) e
            (ground
              (arith, settled done run i h q, q.sets i hi, plain_same d0 run.dev i hi q.cfg q.out))
      | no n ↦ ground (arith, n, q.sets j l)
    ];
    clears = λ j l. elim (ℕ_discrete i j) [
      | yes e ↦
          subst (λ k. test_bit run.clr_mask k ≡ ((i == k || done k) && (needed k && wanted))) e
            (ground (
              arith,
              settled done run i h q,
              q.clears i hi,
              plain_same d0 run.dev i hi q.cfg q.out,
            ))
      | no n ↦ ground (arith, n, q.clears j l)
    ];
    clr_byte = q.clr_byte;
  }

  abbrev with_dev : RoleRun b → ℕ × Dev × b.St → RoleRun b
  with_dev run (res, d1, s1) = record run {
    failed = run.failed + (if res == 0 then 0 else 1);
    dev = d1;
    bus = s1;
  }

  switched_Run :
      (i : ℕ) (done : ℕ → Bool) (run : RoleRun b)
      → i < 8
      → is_pwm run.dev i ≡ true
      → Run done run
      → meant d0 r i ≡ true
      → Run
          (λ j. i == j || done j)
          (with_dev run (pin_switch b run.dev i (mode_of wanted) 0 run.bus))
  switched_Run i done run hi hw q m =
      let d = run.dev in
      let mode = mode_of wanted in
      let k =
        pin_switch_level b d i mode run.bus hw (dimmed_answer b c d i mode run.bus q.free hw) in
      let p = percent (pwm_target mode (pin_of d i).level 0) in
      record {
        dev = subst IsDev (sym k) (keep_level-IsDev d i p q.dev);
        cfg = ap (λ (z : Dev). z.cfg) k ∙ (keep_level_rest d i p).0 ∙ q.cfg;
        free = ap (λ (z : Dev). z.fw_busy) k ∙ (keep_level_rest d i p).1 ∙ q.free;
        roles = λ j. ap (λ (z : Dev). (pin_of z j).role) k ∙ role-keep_level d i j p ∙ q.roles j;
        out = ap (λ (z : Dev). z.regs.out) k ∙ keep_level_out d i p ∙ q.out;
        good = ground (arith, q.good, confirmed_zero b c d i mode run.bus q.free hw);
        dimmed = λ j l pw. elim (ℕ_discrete i j) [
          | yes e ↦
              subst
                (λ k.
                  pin_is_on (pin_switch b d i mode 0 run.bus).1 k
                  ≡ (if (i == k || done k) && meant d0 r k then wanted else pin_is_on d0 k))
                e (ground (arith, m, switched_on b c d i i wanted run.bus q.dev q.free hi hi hw))
          | no n ↦
              ground (
                arith,
                n,
                q.dimmed j l pw,
                switched_on b c d i j wanted run.bus q.dev q.free hi l hw,
              )
        ];
        sets = λ j l. elim (ℕ_discrete i j) [
          | yes e ↦
              subst
                (λ k. test_bit run.set_mask k ≡ ((i == k || done k) && (needed k && not wanted))) e
                (ground (arith, q.cfg, hw, q.sets i hi))
          | no n ↦ ground (arith, n, q.sets j l)
        ];
        clears = λ j l. elim (ℕ_discrete i j) [
          | yes e ↦
              subst (λ k. test_bit run.clr_mask k ≡ ((i == k || done k) && (needed k && wanted))) e
                (ground (arith, q.cfg, hw, q.clears i hi))
          | no n ↦ ground (arith, n, q.clears j l)
        ];
        clr_byte = q.clr_byte;
      }

  -- A plain output is noted in one of the masks.
  abbrev noted : ℕ → RoleRun b → RoleRun b
  noted i run =
      if wanted
      then record run { clr_mask = set_bit run.clr_mask i }
      else record run { set_mask = set_bit run.set_mask i }

  noted_rest :
      (i : ℕ) (run : RoleRun b)
      → ((noted i run).dev ≡ run.dev) × ((noted i run).failed ≡ run.failed)
  noted_rest i run = elim (Bool-cases wanted) [
    | inl w ↦ simp w (refl, refl)
    | inr w ↦ simp w (refl, refl)
  ]

  noted_set :
      (i j : ℕ) (run : RoleRun b)
      → test_bit (noted i run).set_mask j ≡ (test_bit run.set_mask j || i == j && not wanted)
  noted_set i j run = ground (arith, test_bit-set_bit run.set_mask i j)

  noted_clear :
      (i j : ℕ) (run : RoleRun b)
      → test_bit (noted i run).clr_mask j ≡ (test_bit run.clr_mask j || i == j && wanted)
  noted_clear i j run = ground (arith, test_bit-set_bit run.clr_mask i j)

  noted_byte : (i : ℕ) (run : RoleRun b) → i < 8 → run.clr_mask < 256 → (noted i run).clr_mask < 256
  noted_byte i run hi h = ground (arith, set_bit-lt run.clr_mask i h hi)

  noted-Run :
      (i : ℕ) (done : ℕ → Bool) (run : RoleRun b)
      → i < 8
      → is_pwm run.dev i ≡ false
      → meant d0 r i ≡ true
      → xor (pin_is_on run.dev i) wanted ≡ true
      → Run done run
      → Run (λ j. i == j || done j) (noted i run)
  noted-Run i done run hi hw m x q =
      let (k, f) = noted_rest i run in
      let wanting : needed i ≡ true =
        ground (arith, m, hw, q.cfg, x, plain_same d0 run.dev i hi q.cfg q.out) in
      record {
        dev = subst IsDev (sym k) q.dev;
        cfg = ap (λ (z : Dev). z.cfg) k ∙ q.cfg;
        free = ap (λ (z : Dev). z.fw_busy) k ∙ q.free;
        roles = λ j. ap (λ (z : Dev). (pin_of z j).role) k ∙ q.roles j;
        out = ap (λ (z : Dev). z.regs.out) k ∙ q.out;
        good = f ∙ q.good;
        dimmed = λ j l pw. ap (λ (z : Dev). pin_is_on z j) k ∙ elim (ℕ_discrete i j) [
          | yes e ↦ absurd (ground (arith, e, hw, q.cfg, pw))
          | no n ↦ ground (arith, n, q.dimmed j l pw)
        ];
        sets = λ j l. noted_set i j run ∙ elim (ℕ_discrete i j) [
          | yes e ↦
              subst
                (λ k.
                  (test_bit run.set_mask k || i == k && not wanted)
                  ≡ ((i == k || done k) && (needed k && not wanted)))
                e (ground (arith, wanting, q.sets i hi))
          | no n ↦ ground (arith, n, q.sets j l)
        ];
        clears = λ j l. noted_clear i j run ∙ elim (ℕ_discrete i j) [
          | yes e ↦
              subst
                (λ k.
                  (test_bit run.clr_mask k || i == k && wanted)
                  ≡ ((i == k || done k) && (needed k && wanted)))
                e (ground (arith, wanting, q.clears i hi))
          | no n ↦ ground (arith, n, q.clears j l)
        ];
        clr_byte = noted_byte i run hi q.clr_byte;
      }

  role_pin-Run :
      (i : ℕ) (done : ℕ → Bool) (run : RoleRun b)
      → i < 8
      → Run done run
      → Run (λ j. i == j || done j) (role_pin b r wanted i run)
  unfolding role_pin
  role_pin-Run i done run hi q =
      elim (Bool-cases (
        not (eq_role (pin_of run.dev i).role r)
        || not (pin_is_output run.dev i)
        || not (xor (pin_is_on run.dev i) wanted))) [
          | inl s ↦ rw s (kept_Run i done run hi (ground (arith, s)) q)
          | inr s ↦
              let m : meant d0 r i ≡ true = ground (arith, s, meant-Run done run i q) in
              elim (Bool-cases (is_pwm run.dev i)) [
                | inl w ↦ rw (s, w) (switched_Run i done run hi w q m)
                | inr w ↦ rw (s, w) (noted-Run i done run hi w m (ground (arith, s)) q)
              ]
        ]

  role_pins-Run :
      (is : List ℕ) (done : ℕ → Bool) (run : RoleRun b)
      → ((i : ℕ) → elem i is ≡ true → i < 8)
      → Run done run
      → Run (λ j. done j || elem j is) (role_pins b r wanted is run)
  unfolding role_pins elem
  role_pins-Run [] done run small q = record {
    dev = q.dev;
    cfg = q.cfg;
    free = q.free;
    roles = q.roles;
    out = q.out;
    good = q.good;
    dimmed = λ j l pw. ground (arith, q.dimmed j l pw);
    sets = λ j l. ground (arith, q.sets j l);
    clears = λ j l. ground (arith, q.clears j l);
    clr_byte = q.clr_byte;
  }
  role_pins-Run (i ∷ is) done run small q =
      let p =
        role_pins-Run is (λ j. i == j || done j) (role_pin b r wanted i run)
          (λ k e. small k (ground arith)) (role_pin-Run i done run (small i (ground arith)) q) in
      record {
        dev = p.dev;
        cfg = p.cfg;
        free = p.free;
        roles = p.roles;
        out = p.out;
        good = p.good;
        dimmed = λ j l pw. ground (arith, p.dimmed j l pw);
        sets = λ j l. ground (arith, p.sets j l);
        clears = λ j l. ground (arith, p.clears j l);
        clr_byte = p.clr_byte;
      }
