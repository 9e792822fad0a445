-- ===== src/Switches/Alarm.antt =====
-- `dev_alarm` for a ds2408, and `dev_watchdog`: the presses of an alarm, one after the other.
use in10dhost.Prelude.{
  ℕ, zero, suc, Bool, true, false, not, ◌||◌, none, some, set, get_elem?, ◌==◌, if◌then◌else◌,
  bit_and,
}
use in10dhost.Bus.{Bus}
use in10dhost.Ds2408.State.{Dev}
use in10dhost.Ds2408.Registers.{alarm_read, watchdog_restore, stat_watchdog}
use in10dhost.Switches.Handler.{Handler, find_from, switch_handle}

module _ (b : Bus) where
  -- What a reset device lost is restored; the trace and the event are not part of the state.
  unfoldable pub dev_watchdog : ℕ → Handler b → Handler b
  dev_watchdog i h = elim (get_elem? h.devs i) [
    | none ↦ h
    | some d ↦
        let (_, d1, s1) = watchdog_restore b d h.bus in
        if not d.wdt_pending then h else record h { devs = set h.devs i d1; bus = s1 }
  ]

  -- `now n` is the time of the press that leaves `n` to go. Eight are tried at most.
  unfoldable pub press_loop : ℕ → ℕ → ℕ → ℕ → (ℕ → ℕ) → Handler b → Handler b
  press_loop zero bs adr press now h = h
  press_loop (suc n) bs adr press now h =
      let next =
        press_loop n bs adr press now
          (switch_handle b bs adr (now n) (record h { press_time = press })) in
      if h.cur_latch == 0 then h else next

  -- What follows the register read, whose device and answer are given.
  unfoldable pub alarm_done : ℕ → ℕ → ℕ → ℕ → Dev → (ℕ → ℕ) → Handler b → Bool × Handler b
  alarm_done bs adr i r d now h =
      if not (r == 0xaa || r == 0xff)
      then (true, h)
      else if not (bit_and d.regs.stat stat_watchdog == 0)
      then (true, dev_watchdog i h)
      else if h.cur_latch == 0xff
      then (false, h)
      else (true, press_loop 8 bs adr d.regs.time now h)

  -- An alarm of the device with that address, family 0x29. False where it is unknown, or the latches
  -- are no data.
  unfoldable pub dev_alarm : ℕ → ℕ → (ℕ → ℕ) → Handler b → Bool × Handler b
  dev_alarm bs adr now h = elim (find_from bs adr 0 h.devs) [
    | none ↦ (false, h)
    | some i ↦ elim (get_elem? h.devs i) [
      | none ↦ (false, h)
      | some d ↦
          let (r, latch, d1, s1) = alarm_read b d h.bus in
          alarm_done bs adr i r d1 now
            (record h { devs = set h.devs i d1; bus = s1; cur_latch = latch })
    ]
  ]
