-- ===== src/Switches/Press.antt =====
-- What a press and the poll of the timers leave of the off timers, whatever the bus answers.
use in10dhost.Prelude.{
  ℕ, ◌+◌, ◌*◌, ◌≡◌, refl, Bool, true, false, not, none, some, List, [], ◌∷◌, ◌==◌, leb,
  if◌then◌else◌, arith, Bool-cases, Option-cases, inl, inr, ◌⊎◌, length, bit_and, ◌%◌,
}
use in10dhost.Prelude.Bits.{first8}
use in10dhost.Bus.{Bus}
use in10dhost.Pin.{PinRole, light}
use in10dhost.Ds2408.Switch.{PioMode, off, on, toggle}
use in10dhost.Switches.Address.{Switch, SrcAdr, DstAdr, dst_data, src_data, on_press_off}
use in10dhost.Switches.Table.{Table}
use in10dhost.Switches.Timers.{
  Above, lookup, erase, of_data, pending, expired, insert-Above, erase-Above, pending-Above,
  lookup-insert, lookup-erase, lookup-pending, length-expired,
}
use in10dhost.Switches.Handler.{
  Handler, second, actor_handle, timer_start, timer_stop, timer_running, switch_timed, output_on,
  timer_poll, off_each, apply_switch, apply_table, all_off, stop_lights, role_switch_all,
  role_switch_dev, all_disabled, switch_handle, src_next, bitnumber, press_of,
}

-- Everything of the handler but the devices and the bus.
pub record SameTables {b : Bus} (h h' : Handler b) : Type 0 where
  pub switches : h'.switches ≡ h.switches
  pub timers : h'.timers ≡ h.timers
  pub mode : h'.mode ≡ h.mode
  pub dark : h'.dark ≡ h.dark
  pub room_dark : h'.room_dark ≡ h.room_dark
  pub cur_latch : h'.cur_latch ≡ h.cur_latch
  pub by_bus : h'.by_bus ≡ h.by_bus

module _ (b : Bus) where
  -- Switching a target touches its device and the bus, nothing else.
  pub actor_handle-Same :
      (p : DstAdr) (m : PioMode) (h : Handler b) → SameTables h (actor_handle b p m h).1
  unfolding actor_handle
  actor_handle-Same p m h = ground arith

  role_switch_dev-Same :
      (i : ℕ) (r : PinRole) (w : Bool) (h : Handler b) → SameTables h (role_switch_dev b i r w h).1
  unfolding role_switch_dev
  role_switch_dev-Same i r w h = ground arith

  pub role_switch_all-Same :
      (is : List ℕ) (r : PinRole) (w : Bool) (h : Handler b)
      → SameTables h (role_switch_all b is r w h).1
  unfolding role_switch_all
  role_switch_all-Same [] r w h = ground arith
  role_switch_all-Same (i ∷ is) r w h = ground (
    arith,
    role_switch_dev-Same i r w h,
    role_switch_all-Same is r w (role_switch_dev b i r w h).1,
  )

  off_each-Same : (ks : List ℕ) (h : Handler b) → SameTables h (off_each b ks h)
  unfolding off_each
  off_each-Same [] h = ground arith
  off_each-Same (k ∷ ks) h = ground (
    arith,
    actor_handle-Same (of_data k) off h,
    off_each-Same ks (actor_handle b (of_data k) off h).1,
  )

  -- After a press of a timed switch, on timers in order: a target that was off counts `secs`
  -- from now; one that was on has no timer if the switch switches off, counts anew if a timer
  -- was running, and else has none. The timer of every other target is as before. This holds
  -- whatever the bus answers.
  pub switch_timed-timers :
      (sw : Switch) (now j : ℕ) (h : Handler b)
      → Above 0 h.timers
      → lookup j (switch_timed b sw now h).timers ≡ (
          if j == dst_data sw.dst
          then (if not (output_on b sw.dst h)
              then some (now + sw.secs * second)
              else if sw.on_press == on_press_off
              then none
              else if timer_running b sw.dst h
              then some (now + sw.secs * second)
              else none)
          else lookup j h.timers)
  unfolding switch_timed timer_start timer_stop timer_running
  switch_timed-timers sw now j h v =
      let k : ℕ = dst_data sw.dst in
      let d : ℕ = now + sw.secs * second in
      let stopped : Handler b = record h { timers = erase k h.timers } in
      ground (
        arith,
        actor_handle-Same sw.dst on stopped,
        actor_handle-Same sw.dst off stopped,
        lookup-insert j k d (erase k h.timers),
        lookup-insert j k d h.timers,
        lookup-erase 0 j k h.timers v,
      )

  -- After a poll of timers in order, exactly the timers whose deadline lies ahead are left,
  -- with the deadlines they had, and the number returned together with how many are left is how
  -- many there were. This holds whatever the bus answers.
  pub timer_poll-timers :
      (now j : ℕ) (h : Handler b)
      → Above 0 h.timers
      → (lookup j (timer_poll b now h).1.timers
          ≡ elim (lookup j h.timers) [ none ↦ none | some d ↦ if leb d now then none else some d ])
        × ((timer_poll b now h).0 + length (timer_poll b now h).1.timers ≡ length h.timers)
  unfolding timer_poll
  timer_poll-timers now j h v = ground (
    arith,
    off_each-Same (expired now h.timers) (record h { timers = pending now h.timers }),
    lookup-pending 0 j now h.timers v,
    length-expired now h.timers,
  )

  -- The timers keep their order, so that there is one for a target at most.
  switch_timed-Above :
      (sw : Switch) (now : ℕ) (h : Handler b)
      → Above 0 h.timers
      → Above 0 (switch_timed b sw now h).timers
  unfolding switch_timed timer_start timer_stop timer_running
  switch_timed-Above sw now h v =
      let k : ℕ = dst_data sw.dst in
      let stopped : Handler b = record h { timers = erase k h.timers } in
      let gone : Above 0 (erase k h.timers) = erase-Above 0 k h.timers v in
      ground (
        arith,
        actor_handle-Same sw.dst on stopped,
        actor_handle-Same sw.dst off stopped,
        insert-Above 0 k (now + sw.secs * second) (erase k h.timers) (omega arith) gone,
        insert-Above 0 k (now + sw.secs * second) h.timers (omega arith) v,
        gone,
      )

  stop_lights-Above :
      (m : List (ℕ × ℕ)) (h : Handler b) → Above 0 h.timers → Above 0 (stop_lights b m h).timers
  unfolding stop_lights timer_stop
  stop_lights-Above [] h v = v
  stop_lights-Above ((k, d) ∷ m) h v = stop_lights-Above m _ (go _)
    where
      go : (c : Bool) → Above 0 (if c then timer_stop b (of_data k) h else h).timers
      go true = erase-Above 0 (dst_data (of_data k)) h.timers v
      go false = v

  apply_switch-Above :
      (sw : Switch) (now : ℕ) (h : Handler b)
      → Above 0 h.timers
      → Above 0 (apply_switch b sw now h).timers
  unfolding apply_switch all_off timer_stop
  apply_switch-Above sw now h v = ground (
    arith,
    role_switch_all-Same h.by_bus light false (stop_lights b h.timers h),
    stop_lights-Above h.timers h v,
    switch_timed-Above sw now h v,
    actor_handle-Same sw.dst toggle h,
    erase-Above 0 (dst_data sw.dst) h.timers v,
  )

  apply_table-Above :
      (src : ℕ) (t : Table) (now : ℕ) (h : Handler b)
      → Above 0 h.timers
      → Above 0 (apply_table b src t now h).timers
  unfolding apply_table
  apply_table-Above src [] now h v = v
  apply_table-Above src (sw ∷ sws) now h v =
      apply_table-Above src sws now _ (go (src == src_data sw.src))
    where
      go : (c : Bool) → Above 0 (if c then apply_switch b sw now h else h).timers
      go true = apply_switch-Above sw now h v
      go false = v

  -- A press is the run of the table, the latch taken off alone, or nothing.
  pub switch_handle-cases :
      (bs adr now : ℕ) (h : Handler b)
      → (switch_handle b bs adr now h ≡ h)
        ⊎ ((left : ℕ) × (switch_handle b bs adr now h ≡ record h { cur_latch = left }))
        ⊎ ((left : ℕ) × (src : ℕ) × (switch_handle b bs adr now h
              ≡ apply_table b src h.switches now (record h { cur_latch = left })))
  unfolding switch_handle src_next
  switch_handle-cases bs adr now h = elim (Option-cases (bitnumber b first8 h.cur_latch)) [
    | inl e ↦ inl (rw (e, switch_handle, src_next) refl)
    | inr ((nr, left), e) ↦ elim (Bool-cases (all_disabled b (record h { cur_latch = left }))) [
      | inl m ↦ inr (inl (left, rw (e, switch_handle, src_next, m) refl))
      | inr m ↦
          let src : SrcAdr = record {
            res = 0;
            bus = bs % 8;
            press = press_of b h.press_time;
            latch = nr % 16;
            adr = bit_and adr 0x3f;
          } in
          inr (inr (left, src_data src, rw (e, switch_handle, src_next, m) refl))
    ]
  ]

  -- A press, whatever switches it belongs to and whatever the bus answers, leaves the timers in
  -- the order of their targets, one to a target at most, if they were so before.
  pub switch_handle-Above :
      (bs adr now : ℕ) (h : Handler b)
      → Above 0 h.timers
      → Above 0 (switch_handle b bs adr now h).timers
  switch_handle-Above bs adr now h v = elim (switch_handle-cases bs adr now h) [
    | inl e ↦ simp e v
    | inr (inl (left, e)) ↦ simp e v
    | inr (inr (left, src, e)) ↦
        simp e (apply_table-Above src h.switches now (record h { cur_latch = left }) v)
  ]

  -- A poll leaves the timers in the order of their targets, one to a target at most, if they
  -- were so before, whatever the bus answers.
  pub timer_poll-Above :
      (now : ℕ) (h : Handler b) → Above 0 h.timers → Above 0 (timer_poll b now h).1.timers
  unfolding timer_poll
  timer_poll-Above now h v = ground (
    arith,
    off_each-Same (expired now h.timers) (record h { timers = pending now h.timers }),
    pending-Above 0 now h.timers v,
  )
