-- ===== src/Switches/Silent.antt =====
-- An alarm while all switches are masked: /switches/disable.
use in10dhost.Prelude.{
  ℕ, ◌-◌, ◌<◌, ◌≡◌, refl, sym, ◌∙◌, ap, subst, true, some, List, [], ◌∷◌, ◌⊎◌, bit_and, get_elem?,
}
use in10dhost.Prelude.Bits.{first8, clear_bit}
use in10dhost.Bus.{Bus}
use in10dhost.Ds2408.State.{Dev}
use in10dhost.Ds2408.Registers.{alarm_read, stat_watchdog}
use in10dhost.Switches.Handler.{find_from, Handler, all_disabled}
use in10dhost.Switches.Alarm.{dev_alarm}
use in10dhost.Switches.Drained.{press_latch, press_each, set_latches, alarmed, dev_alarm-drained}

module _ (b : Bus) where
  press_latch-masked :
      (bs adr nr now : ℕ) (h : Handler b)
      → all_disabled b h ≡ true
      → press_latch b bs adr nr now h ≡ h
  unfolding press_latch
  press_latch-masked bs adr nr now h m = rw (press_latch, m) refl

  press_each-masked :
      (nrs : List ℕ) (n bs adr press : ℕ) (now : ℕ → ℕ) (h : Handler b)
      → all_disabled b h ≡ true
      → press_each b nrs n bs adr press now h ≡ record h {
        cur_latch = (press_each b nrs n bs adr press now h).cur_latch;
        press_time = (press_each b nrs n bs adr press now h).press_time;
      }
  unfolding press_each all_disabled
  press_each-masked [] n bs adr press now h m = refl
  press_each-masked (nr ∷ nrs) n bs adr press now h m =
      let h1 : Handler b = record h {
        cur_latch = clear_bit h.cur_latch (nr - 1);
        press_time = press;
      } in
      subst
        (λ (k : Handler b). press_each b nrs (n - 1) bs adr press now k ≡ record h {
          cur_latch = (press_each b nrs (n - 1) bs adr press now k).cur_latch;
          press_time = (press_each b nrs (n - 1) bs adr press now k).press_time;
        })
        (sym (press_latch-masked bs adr nr (now (n - 1)) h1 m))
        (press_each-masked nrs (n - 1) bs adr press now h1 m)

  -- While all switches are masked, an alarm drops all its latches without effect: the handler
  -- is afterwards as it was when the device's registers were read, the devices, timers, flags
  -- and the bus alike, with no latch left; but for the time of the press. The device is found,
  -- its registers are read with no watchdog reset among them, and the latches are less than
  -- 0xff.
  pub dev_alarm-masked :
      (bs adr i : ℕ) (now : ℕ → ℕ) (h : Handler b) (d : Dev)
      → find_from bs adr 0 h.devs ≡ some i
      → get_elem? h.devs i ≡ some d
      → ((alarm_read b d h.bus).0 ≡ 0xaa) ⊎ ((alarm_read b d h.bus).0 ≡ 0xff)
      → bit_and (alarm_read b d h.bus).2.regs.stat stat_watchdog ≡ 0
      → (alarm_read b d h.bus).1 < 255
      → all_disabled b h ≡ true
      → (dev_alarm b bs adr now h).1 ≡ record (alarmed b i d h) {
        cur_latch = 0;
        press_time = (dev_alarm b bs adr now h).1.press_time;
      }
  unfolding all_disabled
  dev_alarm-masked bs adr i now h d f g r w l m =
      let (handled, none_left) = dev_alarm-drained b bs adr i now h d f g r w l in
      let nrs = set_latches first8 (alarm_read b d h.bus).1 in
      let time = (alarm_read b d h.bus).2.regs.time in
      subst
        (λ (k : Handler b).
          k ≡ record (alarmed b i d h) { cur_latch = k.cur_latch; press_time = k.press_time })
        (sym (ap (λ k. k.1) handled)) (press_each-masked nrs 8 bs adr time now (alarmed b i d h) m)
      ∙ ap
          (λ k. record (alarmed b i d h) {
            cur_latch = k;
            press_time = (dev_alarm b bs adr now h).1.press_time;
          })
          none_left
