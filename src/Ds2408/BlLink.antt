-- ===== src/Ds2408/BlLink.antt =====
-- `OwBlLink`: the bootloader on the bus, as the `FwLink` of an update. `sleep` is the time that passes
-- on the bus, in microseconds.
use in10dhost.Prelude.{
  ℕ, zero, suc, ◌+◌, ◌/◌, ◌%◌, Bool, false, not, none, some, List, [], ◌∷◌, ◌++◌, take, get_or,
  ◌==◌, if◌then◌else◌,
}
use in10dhost.Prelude.Int.{ℤ, pos, negsuc}
use in10dhost.Bus.{Bus, write_all, read_all}
use in10dhost.Crc.{crc16, check_crc16}
use in10dhost.Fw.{BlInfo, bl_info_parse}
use in10dhost.Fw.Write.{FwLink, bl_ok}

-- BL_CMD_INFO, BL_CMD_WRITE, BL_CMD_READ and BL_CMD_EXIT
abbrev pub cmd_info : ℕ
cmd_info = 0xB1

abbrev pub cmd_write : ℕ
cmd_write = 0xB2

abbrev pub cmd_read : ℕ
cmd_read = 0xB3

abbrev pub cmd_exit : ℕ
cmd_exit = 0xB4

-- BL_CONFIRM
abbrev pub bl_confirm : ℕ
bl_confirm = 0xAA

-- -EIO, -EPROTO, -ETIMEDOUT and -ENOEXEC
abbrev pub minus_eio : ℤ
minus_eio = negsuc 4

abbrev pub minus_eproto : ℤ
minus_eproto = negsuc 70

abbrev pub minus_etimedout : ℤ
minus_etimedout = negsuc 109

abbrev pub minus_enoexec : ℤ
minus_enoexec = negsuc 7

-- What `BlInfo info;` is where a call leaves it alone.
abbrev pub no_info : BlInfo
no_info = record {
  version = 0;
  page_size = 0;
  app_size = 0;
  signature = [];
  app_valid = false;
  last_result = 0;
}

-- The last two of `n + 2` bytes are the checksum of the others.
unfoldable pub summed : ℕ → List ℕ → ℕ → Bool
summed n raw crc = check_crc16 (take n raw) (get_or raw n 0) (get_or raw (n + 1) 0) crc

module _ (b : Bus) (bus : ℕ) (addr : List ℕ) (sleep : ℕ → b.St → b.St) where
  open b use {St, select_channel, reset, select, write, read, last_err}

  unfoldable pub start : St → Bool × St
  start s =
      let (chosen, s1) = select_channel bus s in
      let (present, s2) = reset s1 in
      let s3 = select addr s2 in
      if not chosen
      then (false, s1)
      else if not present
      then (false, s2)
      else (last_err s3 == 0, s3)

  info_answer : List ℕ → ℤ × BlInfo
  info_answer raw =
      if not (summed 11 raw (crc16 (cmd_info ∷ []) 0))
      then (minus_eio, no_info)
      else elim (bl_info_parse raw) [ none ↦ (minus_eproto, no_info) | some i ↦ (pos 0, i) ]

  unfoldable pub info : St → (ℤ × BlInfo) × St
  unfolding info_answer
  info s =
      let (up, s1) = start s in
      let (raw, s2) = read_all b 13 (write cmd_info s1) in
      if up then (info_answer raw, s2) else ((minus_eio, no_info), s1)

  -- The result of the programming: at most `n` reads.
  unfoldable pub result : ℕ → St → ℤ × St
  result zero s = (minus_etimedout, s)
  result (suc n) s =
      let (r, s1) = read s in
      let again = result n (sleep 2000 s1) in if r == 0xff then again else (pos r, s1)

  unfoldable pub page_message : ℕ → ℕ → List ℕ
  page_message cmd at = cmd ∷ at % 256 ∷ at / 256 % 256 ∷ []

  unfoldable pub write_page : ℕ → List ℕ → St → ℤ × St
  write_page at bytes s =
      let (up, s1) = start s in
      let msg = page_message cmd_write at ++ bytes in
      let (sum, s2) = read_all b 2 (write_all b msg s1) in
      if not up
      then (minus_eio, s1)
      else if check_crc16 msg (get_or sum 0 0) (get_or sum 1 0) 0
      then result 10 (sleep 12000 (write bl_confirm s2))
      else (minus_eio, write 0 s2)

  unfoldable pub read_page : ℕ → ℕ → St → (ℤ × List ℕ) × St
  read_page at n s =
      let (up, s1) = start s in
      let msg = page_message cmd_read at in
      let (bytes, s2) = read_all b n (write_all b msg s1) in
      let (sum, s3) = read_all b 2 s2 in
      if not up then ((minus_eio, []), s1) else (
        (
          if check_crc16 bytes (get_or sum 0 0) (get_or sum 1 0) (crc16 msg 0)
              then pos 0
              else minus_eio,
          bytes,
        ),
        s3,
      )

  unfoldable pub exit : St → ℤ × St
  exit s =
      let (up, s1) = start s in
      let (r, s2) = read (write cmd_exit s1) in
      if not up
      then (minus_eio, s1)
      else (if r == bl_ok then pos 0 else if r == 3 then minus_enoexec else minus_eio, s2)

  abbrev pub link : FwLink
  link = record { St = St; info = info; write_page = write_page; read_page = read_page }
