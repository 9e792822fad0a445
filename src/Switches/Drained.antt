-- ===== src/Switches/Drained.antt =====
-- The loop over the latches of an alarm ends with all of them taken.
use in10dhost.Prelude.{
  ◌≢◌, bit_and, same, same→eq, same_self, length, ◌-◌, ◌%◌, ap, get_elem?, set, ℕ_discrete, ◌||◌, ℕ,
  zero, suc, ◌+◌, ◌≤◌, ◌<◌, ◌≡◌, refl, sym, ◌∙◌, Bool, true, false, not, ◌&&◌, none, some, List, [],
  ◌∷◌, ltb, ◌==◌, if◌then◌else◌, arith, Bool-cases, Option-cases, inl, inr, ◌⊎◌,
}
use in10dhost.Prelude.Bits.{first8, test_bit, clear_bit}
use in10dhost.Bus.{Bus}
use in10dhost.Pin.{light}
use in10dhost.Ds2408.State.{Dev}
use in10dhost.Ds2408.Registers.{alarm_read, stat_watchdog}
use in10dhost.Ds2408.Switch.{toggle, on, off}
use in10dhost.Switches.Address.{SrcAdr, Switch, src_data}
use in10dhost.Switches.Table.{Table}
use in10dhost.Switches.Timers.{of_data}
use in10dhost.Switches.Handler.{
  find_from, Handler, bitnumber, press_of, switch_handle, src_next, apply_table, apply_switch,
  all_disabled, switch_timed, all_off, stop_lights, timer_stop, timer_start,
}
use in10dhost.Switches.Press.{actor_handle-Same, role_switch_all-Same}
use in10dhost.Switches.Alarm.{press_loop, alarm_done, dev_alarm}

-- The latches of a byte that are set, from 1, in order.
unfoldable pub set_latches : List ℕ → ℕ → List ℕ
set_latches [] x = []
set_latches (i ∷ is) x =
    let rest = set_latches is x in if test_bit x i then (i + 1) ∷ rest else rest

good_latch : Bus → ℕ → Bool
good_latch b x = elim (bitnumber b first8 x) [
  | none ↦ x == 0
  | some (nr, left) ↦
      ltb left 256
      && (left == clear_bit x (nr - 1)
          && same (set_latches first8 x) (nr ∷ set_latches first8 left))
]

all_below : (ℕ → Bool) → ℕ → Bool
all_below p zero = true
all_below p (suc n) = p n && all_below p n

all_below_at : (p : ℕ → Bool) (n i : ℕ) → all_below p n ≡ true → i < n → p i ≡ true
unfolding all_below
all_below_at p zero i h l = absurd (omega arith)
all_below_at p (suc n) i h l = elim (ℕ_discrete i n) [
  | yes e ↦ rw e (ground (arith, h))
  | no ne ↦ all_below_at p n i (ground (arith, h)) (omega (arith, ne))
]

module _ (b : Bus) where
  good_latches : all_below (good_latch b) 256 ≡ true
  unfolding all_below good_latch bitnumber set_latches test_bit same
  good_latches = refl

  no_latch : all_below (λ x. not (same (set_latches first8 x) []) || x == 0) 256 ≡ true
  unfolding all_below set_latches test_bit same
  no_latch = refl

  -- A press takes no latch but its own.
  stop_lights-latch :
      (m : List (ℕ × ℕ)) (h : Handler b) → (stop_lights b m h).cur_latch ≡ h.cur_latch
  unfolding stop_lights timer_stop
  stop_lights-latch [] h = refl
  stop_lights-latch ((k, d) ∷ m) h = stop_lights-latch m _ ∙ go _
    where
      go : (c : Bool) → (if c then timer_stop b (of_data k) h else h).cur_latch ≡ h.cur_latch
      go true = refl
      go false = refl

  apply_switch-latch :
      (sw : Switch) (now : ℕ) (h : Handler b) → (apply_switch b sw now h).cur_latch ≡ h.cur_latch
  unfolding apply_switch all_off switch_timed timer_stop timer_start
  apply_switch-latch sw now h = ground (
    arith,
    role_switch_all-Same b h.by_bus light false (stop_lights b h.timers h),
    stop_lights-latch h.timers h,
    actor_handle-Same b sw.dst toggle h,
    actor_handle-Same b sw.dst on (timer_stop b sw.dst h),
    actor_handle-Same b sw.dst off (timer_stop b sw.dst h),
  )

  apply_table-latch :
      (src : ℕ) (t : Table) (now : ℕ) (h : Handler b)
      → (apply_table b src t now h).cur_latch ≡ h.cur_latch
  unfolding apply_table
  apply_table-latch src [] now h = refl
  apply_table-latch src (sw ∷ sws) now h =
      apply_table-latch src sws now _ ∙ go (src == src_data sw.src)
    where
      go : (c : Bool) → (if c then apply_switch b sw now h else h).cur_latch ≡ h.cur_latch
      go true = apply_switch-latch sw now h
      go false = refl

  -- One press of a latch: what the table does with it, by the time that it was pressed.
  unfoldable pub press_latch : ℕ → ℕ → ℕ → ℕ → Handler b → Handler b
  press_latch bs adr nr now h =
      let src : SrcAdr = record {
        res = 0;
        bus = bs % 8;
        press = press_of b h.press_time;
        latch = nr % 16;
        adr = bit_and adr 0x3f;
      } in
      if all_disabled b h then h else apply_table b (src_data src) h.switches now h

  -- The presses of some latches, one after the other, each cleared before its press.
  unfoldable pub press_each : List ℕ → ℕ → ℕ → ℕ → ℕ → (ℕ → ℕ) → Handler b → Handler b
  press_each [] n bs adr press now h = h
  press_each (nr ∷ nrs) n bs adr press now h = press_each nrs (n - 1) bs adr press now (
      press_latch bs adr nr (now (n - 1))
        (record h { cur_latch = clear_bit h.cur_latch (nr - 1); press_time = press }))

  press_each-step :
      (nr : ℕ) (nrs : List ℕ) (n bs adr press : ℕ) (now : ℕ → ℕ) (h : Handler b)
      → press_each (nr ∷ nrs) (suc n) bs adr press now h
        ≡ press_each nrs n bs adr press now (
            press_latch bs adr nr
              (now n)
              (record h { cur_latch = clear_bit h.cur_latch (nr - 1); press_time = press }))
  unfolding press_each
  press_each-step nr nrs n bs adr press now h =
      let pressed : Handler b = record h {
        cur_latch = clear_bit h.cur_latch (nr - 1);
        press_time = press;
      } in
      let less : suc n - 1 ≡ n = omega arith in
      ap (λ k. press_each nrs k bs adr press now (press_latch bs adr nr (now k) pressed)) less

  press_latch-latch :
      (bs adr nr now : ℕ) (h : Handler b) → (press_latch bs adr nr now h).cur_latch ≡ h.cur_latch
  unfolding press_latch
  press_latch-latch bs adr nr now h = elim (Bool-cases (all_disabled b h)) [
    | inl m ↦ rw (press_latch, m) refl
    | inr m ↦ rw (press_latch, m) (apply_table-latch _ h.switches now h)
  ]

  switch_handle-press :
      (bs adr now nr left : ℕ) (h : Handler b)
      → bitnumber b first8 h.cur_latch ≡ some (nr, left)
      → switch_handle b bs adr now h ≡ press_latch bs adr nr now (record h { cur_latch = left })
  unfolding switch_handle src_next press_latch
  switch_handle-press bs adr now nr left h e = rw (switch_handle, src_next, e) refl

  -- The lowest latch that is set, and those above it.
  next_latch :
      (x : ℕ)
      → x < 256
      → x ≢ 0
      → (nr : ℕ) × (bitnumber b first8 x ≡ some (nr, clear_bit x (nr - 1)))
        × (clear_bit x (nr - 1) < 256)
        × (set_latches first8 x ≡ nr ∷ set_latches first8 (clear_bit x (nr - 1)))
  unfolding good_latch
  next_latch x lt ne =
      let good = all_below_at (good_latch b) 256 x good_latches lt in
      elim (Option-cases (bitnumber b first8 x)) [
        | inl e ↦ absurd (ground (arith, rw (e, good_latch) at good, ne))
        | inr ((nr, left), e) ↦
            let found = rw (e, good_latch) at good in
            let cleared : left ≡ clear_bit x (nr - 1) = ground (arith, found) in
            (
              nr,
              e ∙ ap (λ k. some (nr, k)) cleared,
              ground (arith, found),
              same→eq (set_latches first8 x) (nr ∷ set_latches first8 left) (ground (arith, found))
                  ∙ ap (λ k. nr ∷ set_latches first8 k) cleared,
            )
      ]

  few_latches : (is : List ℕ) (x : ℕ) → length (set_latches is x) ≤ length is
  unfolding set_latches
  few_latches [] x = omega arith
  few_latches (i ∷ is) x = ground (arith, few_latches is x)

  no_latches : set_latches first8 0 ≡ []
  unfolding set_latches test_bit
  no_latches = refl

  none_set : (ls : List ℕ) → length ls ≤ 0 → ls ≡ []
  none_set [] h = refl
  none_set (x ∷ xs) h = absurd (omega arith)

  zero_latch : (x : ℕ) → x < 256 → set_latches first8 x ≡ [] → x ≡ 0
  zero_latch x lt e =
      let none_left =
        all_below_at (λ x. not (same (set_latches first8 x) []) || x == 0) 256 x no_latch lt in
      ground (arith, rw e at none_left, same_self [])

  -- The loop presses each latch once, from the lowest on.
  press_loop-each :
      (n bs adr press : ℕ) (now : ℕ → ℕ) (h : Handler b)
      → h.cur_latch < 256
      → length (set_latches first8 h.cur_latch) ≤ n
      → (press_loop b n bs adr press now h
          ≡ press_each (set_latches first8 h.cur_latch) n bs adr press now h)
        × ((press_loop b n bs adr press now h).cur_latch ≡ 0)
  unfolding press_loop press_each
  press_loop-each zero bs adr press now h lt le =
      let e = none_set (set_latches first8 h.cur_latch) le in
      (rw e refl, zero_latch h.cur_latch lt e)
  press_loop-each (suc n) bs adr press now h lt le = elim (Bool-cases (h.cur_latch == 0)) [
    | inl e ↦
        let z : h.cur_latch ≡ 0 = ground (arith, e) in
        rw (e, ap (set_latches first8) z ∙ no_latches) (refl, z)
    | inr e ↦
        let (nr, found, lt', rest) = next_latch h.cur_latch lt (ground (arith, e)) in
        let h1 : Handler b = record h {
          cur_latch = clear_bit h.cur_latch (nr - 1);
          press_time = press;
        } in
        let h2 : Handler b = press_latch bs adr nr (now n) h1 in
        let kept : h2.cur_latch ≡ clear_bit h.cur_latch (nr - 1) =
          press_latch-latch bs adr nr (now n) h1 in
        let (all_pressed, none_left) =
          press_loop-each n bs adr press now h2 (rw kept lt')
            (rw kept (omega (arith, le, ap length rest))) in
        rw
          (e, switch_handle-press bs adr (now n) nr _ (record h { press_time = press }) found, rest)
          (
            all_pressed
                ∙ ap (λ k. press_each (set_latches first8 k) n bs adr press now h2) kept
                ∙ sym (
                    press_each-step nr (set_latches first8 (clear_bit h.cur_latch (nr - 1))) n bs
                      adr press now h),
            none_left,
          )
  ]

  -- The handler when the registers of the device at a place were read.
  abbrev pub alarmed : ℕ → Dev → Handler b → Handler b
  alarmed i d h =
      let (_, latch, d1, s1) = alarm_read b d h.bus in
      record h { devs = set h.devs i d1; bus = s1; cur_latch = latch }

  alarm_done-pressed :
      (bs adr i r : ℕ) (d : Dev) (now : ℕ → ℕ) (h : Handler b)
      → (r ≡ 0xaa) ⊎ (r ≡ 0xff)
      → bit_and d.regs.stat stat_watchdog ≡ 0
      → h.cur_latch < 255
      → (alarm_done b bs adr i r d now h
          ≡ (true, press_each (set_latches first8 h.cur_latch) 8 bs adr d.regs.time now h))
        × ((alarm_done b bs adr i r d now h).1.cur_latch ≡ 0)
  unfolding alarm_done
  alarm_done-pressed bs adr i r d now h ok w l =
      let (all_pressed, none_left) =
        press_loop-each 8 bs adr d.regs.time now h (omega arith) (few_latches first8 h.cur_latch) in
      let no_data : (h.cur_latch == 0xff) ≡ false = ground arith in
      let read : (r == 0xaa || r == 0xff) ≡ true = elim ok [
        | inl e ↦ ground (arith, e)
        | inr e ↦ ground (arith, e)
      ] in
      rw (alarm_done, read, w, no_data) (ap (λ k. (true, k)) all_pressed, none_left)

  -- Eight rounds are enough for an alarm: where the device is found, its registers are read
  -- with no watchdog reset among them, and the latches are less than 0xff, `dev_alarm` answers
  -- true, has pressed each latch that is set once, from the lowest to the highest, at the time
  -- that the registers hold, and leaves none in `cur_latch`. This holds whatever the switches
  -- do and the bus answers to them.
  pub dev_alarm-drained :
      (bs adr i : ℕ) (now : ℕ → ℕ) (h : Handler b) (d : Dev)
      → find_from bs adr 0 h.devs ≡ some i
      → get_elem? h.devs i ≡ some d
      → ((alarm_read b d h.bus).0 ≡ 0xaa) ⊎ ((alarm_read b d h.bus).0 ≡ 0xff)
      → bit_and (alarm_read b d h.bus).2.regs.stat stat_watchdog ≡ 0
      → (alarm_read b d h.bus).1 < 255
      → (dev_alarm b bs adr now h ≡ (
        true,
        press_each
            (set_latches first8 (alarm_read b d h.bus).1)
            8
            bs
            adr
            (alarm_read b d h.bus).2.regs.time
            now
            (alarmed i d h),
      ))
        × ((dev_alarm b bs adr now h).1.cur_latch ≡ 0)
  unfolding dev_alarm
  dev_alarm-drained bs adr i now h d f g r w l =
      rw (f, dev_alarm, g)
        (alarm_done-pressed bs adr i (alarm_read b d h.bus).0 (alarm_read b d h.bus).2 now
          (alarmed i d h) r w l)
