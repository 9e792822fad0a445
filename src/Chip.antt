-- ===== src/Chip.antt =====
-- src/ds2482.cpp: the DS2482 controller behind an I2C adapter, and the search of the 1-Wire bus. Waits and
-- the log are left out.
pub mod Wait
mod Tests
use in10dhost.Prelude.{
  ℕ, zero, suc, ◌+◌, ◌-◌, ◌*◌, ◌/◌, ◌%◌, ◌^◌, ◌<◌, Bool, true, false, ◌&&◌, ◌||◌, not, Option, none,
  some, List, [], ◌∷◌, get_or, set, ltb, ◌==◌, if◌then◌else◌, bit_and, replicate,
}
use in10dhost.Prelude.Int.{ℤ, pos, negsuc}
use in10dhost.Prelude.Bits.{test_bit, set_bit, clear_bit}

-- `ioctl(fd, I2C_RDWR, …)` of one message: what it returns, the byte of a read, and the adapter with
-- what is behind it.
pub record I2c : Type 1 where
  pub St : Type 0
  pub send : List ℕ → St → ℤ × St
  pub receive : St → (ℤ × ℕ) × St
  pub receive-lt : (s : St) → (receive s).0.1 < 256

-- The status register's bits, and what `busyWait` answers on an error.
abbrev pub status_busy : ℕ
status_busy = 0x01

abbrev pub status_inval : ℕ
status_inval = 0xfd

abbrev pub ptr_status : ℕ
ptr_status = 0xF0

abbrev pub ptr_data : ℕ
ptr_data = 0xE1

abbrev pub err_read : ℕ
err_read = 6

abbrev pub err_write : ℕ
err_write = 7

-- The fields of a `DS2482`.
pub record Chip (i : I2c) : Type 0 where
  pub adapter : I2c.St i
  pub last_err : ℕ
  pub read_ptr : ℕ
  pub channel : ℕ
  pub address : List ℕ
  pub last_discrepancy : ℕ
  pub family_discrepancy : ℕ
  pub exhausted : Bool

is_negative : ℤ → Bool
is_negative (pos n) = false
is_negative (negsuc n) = true

-- `set_error`: ETIMEDOUT, EAGAIN, EBUSY, ENXIO, and the default.
unfoldable pub error_of : ℤ → ℕ → ℕ
error_of (negsuc n) def = def
error_of (pos n) def =
    if n == 110 then 5 else if n == 11 || n == 16 then 4 else if n == 6 then 2 else def

module _ (i : I2c) where
  open i use {St, send, receive}

  unfoldable pub add_error : ℕ → Chip i → Chip i
  add_error e c = record c { last_err = (c.last_err + e) % 256 }

  sent : ℤ × St → Chip i → Chip i
  sent (r, s) c = record c {
    adapter = s;
    last_err = if is_negative r then error_of r err_write else c.last_err;
  }

  -- `_write`
  unfoldable pub write_byte : ℕ → Chip i → Chip i
  unfolding sent is_negative
  write_byte x c = record (sent (send (x ∷ []) c.adapter) c) { read_ptr = ptr_status }

  ptr_after : ℕ → ℕ → ℕ
  ptr_after cmd x =
      if cmd == 0xD2
      then 0xC3
      else if cmd == 0xC3
      then 0xD2
      else if cmd == 0xE1
      then x
      else ptr_status

  -- `_write_cmd`
  unfoldable pub write_cmd : ℕ → ℕ → Chip i → Chip i
  unfolding sent is_negative ptr_after
  write_cmd cmd x c = record (sent (send (cmd ∷ x ∷ []) c.adapter) c) { read_ptr = ptr_after cmd x }

  unfoldable pub set_read_ptr : ℕ → Chip i → Chip i
  set_read_ptr p c = if c.read_ptr == p then c else write_cmd 0xE1 p c

  -- `_read`
  unfoldable pub read_byte : Chip i → ℕ × Chip i
  unfolding is_negative
  read_byte c =
      let ((r, x), s) = receive c.adapter in
      if is_negative r
      then (0xff, record c { adapter = s; last_err = error_of r err_read })
      else (x, record c { adapter = s })

  -- The loop of `busyWait`, with the count that is left and the status so far.
  unfoldable pub wait_loop : ℕ → ℕ → Chip i → ℕ × Chip i
  wait_loop zero res c = (status_inval, record c { last_err = 18 })
  wait_loop (suc n) res c =
      let (x, c1) = read_byte c in
      let rest = wait_loop n x c1 in
      if bit_and res status_busy == 0
      then (res, c)
      else if c1.last_err == err_read
      then (status_inval, record c1 { last_err = 17 })
      else if n == 0 || not (c1.last_err == 0)
      then (status_inval, record c1 { last_err = 18 })
      else rest

  unfoldable pub busy_wait : Chip i → ℕ × Chip i
  busy_wait c =
      let (res, c1) = read_byte (set_read_ptr ptr_status c) in
      if not (c1.last_err == 0) then (status_inval, add_error 10 c1) else wait_loop 500 res c1

  abbrev pub cleared : Chip i → Chip i
  cleared c = record c { last_err = 0 }

  -- `chan_w` and `chan_r`
  chan_w : List ℕ
  chan_w = 0xF0 ∷ 0xE1 ∷ 0xD2 ∷ 0xC3 ∷ 0xB4 ∷ 0xA5 ∷ 0x96 ∷ 0x87 ∷ []

  chan_r : List ℕ
  chan_r = 0xB8 ∷ 0xB1 ∷ 0xAA ∷ 0xA3 ∷ 0x9C ∷ 0x95 ∷ 0x8E ∷ 0x87 ∷ []

  no_channel : Chip i → Bool × Chip i
  no_channel c = (false, record c { channel = 0xff })

  unfoldable pub select_channel : ℕ → Chip i → Bool × Chip i
  unfolding chan_w chan_r no_channel
  select_channel n c =
      let (res, c1) = busy_wait (cleared c) in
      let c2 = write_cmd 0xC3 (get_or chan_w n 0) c1 in
      let (check, c3) = read_byte c2 in
      if c.channel == n
      then (true, c)
      else if res == status_inval
      then no_channel (add_error 20 c1)
      else if not (c2.last_err == 0)
      then no_channel (add_error 40 c2)
      else if not (check == get_or chan_r n 0)
      then no_channel (record c3 { last_err = 47 })
      else (true, record c3 { channel = n })

  unfoldable pub reset : Chip i → Bool × Chip i
  reset c =
      let (_, c1) = busy_wait (cleared c) in
      let c2 = write_byte 0xB4 c1 in
      let (stat, c3) = busy_wait c2 in
      if not (c1.last_err == 0)
      then (false, add_error 40 c1)
      else if not (c2.last_err == 0)
      then (false, add_error 60 c2)
      else if not (c3.last_err == 0)
      then (false, add_error 55 c3)
      else (not (bit_and stat 0x02 == 0), c3)

  unfoldable pub write : ℕ → Chip i → Chip i
  write x c =
      let (_, c1) = busy_wait (cleared c) in
      let c2 = write_cmd 0xa5 x c1 in
      if not (c1.last_err == 0)
      then add_error 64 c1
      else if not (c2.last_err == 0)
      then add_error 82 c2
      else c2

  unfoldable pub read : Chip i → ℕ × Chip i
  read c =
      let (_, c1) = busy_wait (cleared c) in
      let c2 = write_byte 0x96 c1 in
      let (_, c3) = busy_wait c2 in
      if not (c1.last_err == 0)
      then (0xff, add_error 80 c1)
      else if not (c2.last_err == 0)
      then (0xff, add_error 85 c2)
      else if not (c3.last_err == 0)
      then (0xff, add_error 90 c3)
      else read_byte (set_read_ptr ptr_data c3)

  select_bytes : List ℕ → Chip i → Chip i
  select_bytes [] c = c
  select_bytes (x ∷ xs) c =
      let c1 = write x c in
      let rest = select_bytes xs c1 in if not (c1.last_err == 0) then add_error 40 c1 else rest

  -- The time of the selection is not kept.
  unfoldable pub select : List ℕ → Chip i → Chip i
  unfolding select_bytes
  select rom c =
      let c1 = write 0x55 c in
      let rest = select_bytes rom c1 in if not (c1.last_err == 0) then add_error 30 c1 else rest

  unfoldable pub reset_search : Chip i → Chip i
  reset_search c = record c {
    exhausted = false;
    last_discrepancy = 0;
    last_err = 0;
    address = replicate 8 0;
  }

  unfoldable pub target_search : ℕ → Chip i → Chip i
  target_search family c = record (reset_search c) {
    address = set (replicate 8 0) 0 family;
    last_discrepancy = 64;
    family_discrepancy = 0;
  }

  -- The way that is asked for at a bit, from 1.
  unfoldable pub direction : ℕ → Chip i → Bool
  direction n c =
      if ltb n c.last_discrepancy
      then test_bit (get_or c.address ((n - 1) / 8) 0) ((n - 1) % 8)
      else n == c.last_discrepancy

  unfoldable pub put_bit : ℕ → Bool → List ℕ → List ℕ
  put_bit n one xs =
      let x = get_or xs ((n - 1) / 8) 0 in
      set xs ((n - 1) / 8) (if one then set_bit x ((n - 1) % 8) else clear_bit x ((n - 1) % 8))

  -- What a bit leaves: `none` ends the search without a device, else the last branch.
  unfoldable pub search_bit : ℕ → ℕ → Chip i → Option ℕ × Chip i
  search_bit n last_zero c =
      let (_, c1) = busy_wait c in
      let c2 = write_cmd 0x78 (if direction n c then 0x80 else 0) c1 in
      let (stat, c3) = busy_wait c2 in
      let one = test_bit stat 7 in
      let branch = not (test_bit stat 5) && not (test_bit stat 6) && not one in
      if not (c1.last_err == 0)
      then (none, c1)
      else if not (c3.last_err == 0)
      then (none, c3)
      else if test_bit stat 5 && test_bit stat 6
      then (none, c3)
      else (
        some (if branch then n else last_zero),
        record c3 {
          address = put_bit n one c3.address;
          family_discrepancy = if branch && ltb n 9 then n else c3.family_discrepancy;
        },
      )

  -- The bits from `n` on, of which `left` are to go.
  unfoldable pub search_bits : ℕ → ℕ → ℕ → Chip i → Option ℕ × Chip i
  search_bits zero n last_zero c = (some last_zero, c)
  search_bits (suc left) n last_zero c =
      let (r, c1) = search_bit n last_zero c in
      elim r [ none ↦ (none, c1) | some z ↦ search_bits left (n + 1) z c1 ]

  -- The next device's address, if there is one; of those that alarm where `all_of` is false.
  unfoldable pub search : Bool → Chip i → Option (List ℕ) × Chip i
  search all_of c =
      let (_, c1) = reset c in
      let c2 = write (if all_of then 0xF0 else 0xEC) c1 in
      let (r, c3) = search_bits 64 1 0 c2 in
      if c.exhausted
      then (none, c)
      else if not (c2.last_err == 0)
      then (none, add_error 140 c2)
      else elim r [
        | none ↦ (none, c3)
        | some z ↦ (
          some c3.address,
          record c3 { last_discrepancy = z; exhausted = if z == 0 then true else c3.exhausted },
        )
      ]
