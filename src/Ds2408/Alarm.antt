-- ===== src/Ds2408/Alarm.antt =====
-- What a register read keeps.
use in10dhost.Prelude.{
  ℕ, zero, suc, ◌≡◌, ◌∙◌, Bool, true, not, ◌&&◌, ◌||◌, ◌==◌, arith, Bool-cases, inl, inr, List,
}
use in10dhost.Prelude.Bits.{test_bit, test_bit-bit_or}
use in10dhost.Bus.{Bus}
use in10dhost.Ds2408.State.{Dev}
use in10dhost.Ds2408.Wire.{latch_reset, retries, keep_level}
use in10dhost.Ds2408.Registers.{
  RegRun, reg_transfer, reg_step, reg_loop, reg_done, reg_read, reset_if, alarm_read, note_watchdog,
  note_dimmed,
}

-- The latches that are collected, and what a watchdog reset left to restore.
record Keeps (d d' : Dev) : Type 0 where
  latched : d'.latched ≡ d.latched
  pending : d'.wdt_pending ≡ d.wdt_pending
  out : d'.wdt_out ≡ d.wdt_out
  known : d'.wdt_out_known ≡ d.wdt_out_known
  busy : d'.fw_busy ≡ d.fw_busy

Keeps-trans : (d e f : Dev) → Keeps d e → Keeps e f → Keeps d f
Keeps-trans d e f p q = record {
  latched = q.latched ∙ p.latched;
  pending = q.pending ∙ p.pending;
  out = q.out ∙ p.out;
  known = q.known ∙ p.known;
  busy = q.busy ∙ p.busy;
}

note_dimmed-Keeps : (d : Dev) → Keeps d (note_dimmed d)
unfolding note_dimmed keep_level
note_dimmed-Keeps d = ground arith

note_watchdog-latched : (o : ℕ) (k : Bool) (d : Dev) → (note_watchdog o k d).latched ≡ d.latched
unfolding note_watchdog
note_watchdog-latched o k d = ground arith

note_watchdog-busy : (o : ℕ) (k : Bool) (d : Dev) → (note_watchdog o k d).fw_busy ≡ d.fw_busy
unfolding note_watchdog
note_watchdog-busy o k d = ground arith

-- A reset that waits to be restored is not overwritten.
note_watchdog-Keeps :
    (o : ℕ) (k : Bool) (d : Dev) → d.wdt_pending ≡ true → Keeps d (note_watchdog o k d)
unfolding note_watchdog
note_watchdog-Keeps o k d h = ground arith

module _ (b : Bus) where
  open b use {St}

  reg_step-Keeps : (err : ℕ) (d : Dev) (t : List ℕ × St) → Keeps d (reg_step b err d t).dev
  unfolding reg_step
  reg_step-Keeps err d (rd, s1) = ground arith

  reg_loop-Keeps : (n err : ℕ) (d : Dev) (s : St) → Keeps d (reg_loop b n err d s).dev
  unfolding reg_loop
  reg_loop-Keeps zero err d s = reg_step-Keeps err d (reg_transfer b d s)
  reg_loop-Keeps (suc n) err d s =
      let run : RegRun b = reg_step b err d (reg_transfer b d s) in
      let first : Keeps d run.dev = reg_step-Keeps err d (reg_transfer b d s) in
      let more : Keeps d (reg_loop b n run.err run.dev run.bus).dev =
        Keeps-trans d _ _ first (reg_loop-Keeps n run.err run.dev run.bus) in
      elim (Bool-cases run.exhausted) [ inl e ↦ simp e more | inr e ↦ simp e first ]

  latch_reset-Keeps : (d : Dev) (s : St) → Keeps d (latch_reset b d s).1
  unfolding latch_reset
  latch_reset-Keeps d s = ground arith

  reset_if-Keeps : (c : Bool) (d : Dev) (s : St) → Keeps d (reset_if b c d s).1
  unfolding reset_if
  reset_if-Keeps c d s = ground (arith, latch_reset-Keeps d s)

  -- What a read leaves of what was to restore, and of the latches that were collected.
  reg_done-latched :
      (c k : Bool) (o : ℕ) (run : RegRun b) → (reg_done b c o k run).1.latched ≡ run.dev.latched
  unfolding reg_done
  reg_done-latched c k o run =
      let kept : Dev = record run.dev { last_latch = run.dev.regs.latch } in
      let d1 : Dev = (reset_if b c kept run.bus).1 in
      ground (
        arith,
        reset_if-Keeps c kept run.bus,
        note_dimmed-Keeps d1,
        note_watchdog-latched o k (note_dimmed d1),
      )

  reg_read-latched : (c : Bool) (d : Dev) (s : St) → (reg_read b c d s).1.latched ≡ d.latched
  unfolding reg_read
  reg_read-latched c d s = ground (
    arith,
    reg_done-latched c d.out_known d.regs.out (reg_loop b retries 0 d s),
    reg_loop-Keeps retries 0 d s,
  )

  -- A read neither begins nor ends an update.
  reg_done-busy :
      (c k : Bool) (o : ℕ) (run : RegRun b) → (reg_done b c o k run).1.fw_busy ≡ run.dev.fw_busy
  unfolding reg_done
  reg_done-busy c k o run =
      let kept : Dev = record run.dev { last_latch = run.dev.regs.latch } in
      let d1 : Dev = (reset_if b c kept run.bus).1 in
      ground (
        arith,
        reset_if-Keeps c kept run.bus,
        note_dimmed-Keeps d1,
        note_watchdog-busy o k (note_dimmed d1),
      )

  pub reg_read-busy : (c : Bool) (d : Dev) (s : St) → (reg_read b c d s).1.fw_busy ≡ d.fw_busy
  unfolding reg_read
  reg_read-busy c d s = ground (
    arith,
    reg_done-busy c d.out_known d.regs.out (reg_loop b retries 0 d s),
    reg_loop-Keeps retries 0 d s,
  )

  -- After `alarm_read` a latch is collected exactly if it was before, or if the register read
  -- answered 0xaa or 0xff, the latches that were read are not 0xff, and it is among them. A
  -- second alarm so loses none of the first, whatever the bus answers.
  pub alarm_read-latched :
      (d : Dev) (s : St) (i : ℕ)
      → test_bit (alarm_read b d s).2.latched i ≡ (
          test_bit d.latched i
          || (((reg_read b true d s).0 == 0xaa || (reg_read b true d s).0 == 0xff)
              && (not ((alarm_read b d s).1 == 0xff) && test_bit (alarm_read b d s).1 i)))
  unfolding alarm_read
  alarm_read-latched d s i = ground (
    arith,
    reg_read-latched true d s,
    test_bit-bit_or (reg_read b true d s).1.latched (reg_read b true d s).1.last_latch i,
  )

  reg_done-pending :
      (c k : Bool) (o : ℕ) (run : RegRun b)
      → run.dev.wdt_pending ≡ true
      → Keeps run.dev (reg_done b c o k run).1
  unfolding reg_done
  reg_done-pending c k o run h =
      let kept : Dev = record run.dev { last_latch = run.dev.regs.latch } in
      let d1 : Dev = (reset_if b c kept run.bus).1 in
      ground (
        arith,
        h,
        reset_if-Keeps c kept run.bus,
        note_dimmed-Keeps d1,
        note_watchdog-Keeps o k (note_dimmed d1),
      )

  -- While a watchdog reset waits to be restored, a register read leaves it waiting, with the
  -- outputs to restore and whether they are known as they were, whatever the bus answers.
  pub reg_read-pending :
      (c : Bool) (d : Dev) (s : St)
      → d.wdt_pending ≡ true
      → ((reg_read b c d s).1.wdt_pending ≡ true)
        × ((reg_read b c d s).1.wdt_out ≡ d.wdt_out)
        × ((reg_read b c d s).1.wdt_out_known ≡ d.wdt_out_known)
  unfolding reg_read
  reg_read-pending c d s h = ground (
    arith,
    reg_done-pending c d.out_known d.regs.out (reg_loop b retries 0 d s),
    reg_loop-Keeps retries 0 d s,
  )
