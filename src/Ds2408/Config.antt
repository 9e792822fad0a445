-- ===== src/Ds2408/Config.antt =====
-- `cfg_read` and `cfg_write`: the device's configuration over the bus.
use in10dhost.Prelude.{
  ℕ, ◌-◌, Bool, true, false, not, List, ◌++◌, length, take, drop, if◌then◌else◌,
}
use in10dhost.Bus.{Bus, write_all, read_all}
use in10dhost.Ds2408.State.{Dev}

-- DS2408_CFG_SIZE
abbrev pub cfg_size : ℕ
cfg_size = 26

-- `memcpy` to the start of a buffer.
abbrev pub copy_to : List ℕ → List ℕ → List ℕ
copy_to xs buf = xs ++ drop (length xs) buf

module _ (b : Bus) where
  open b use {St, select_channel, reset, select, write}

  -- True is the size, false is -1. The last byte is not read.
  unfoldable pub cfg_read : Dev → St → Bool × Dev × St
  cfg_read d s =
      let (chosen, s1) = select_channel d.bus s in
      let (_, s2) = reset s1 in
      let (xs, s3) = read_all b (cfg_size - 1) (write 0x85 (select d.addr s2)) in
      if d.fw_busy
      then (false, d, s)
      else if not chosen
      then (false, d, s1)
      else (true, record d { cfg = copy_to xs d.cfg }, s3)

  -- True is the number of bytes, at most the size, false is -1. All but the last are sent.
  unfoldable pub cfg_write : List ℕ → Dev → St → Bool × Dev × St
  cfg_write bytes d s =
      let xs = take cfg_size bytes in
      let (chosen, s1) = select_channel d.bus s in
      let (_, s2) = reset s1 in
      let s3 = write_all b (take (length xs - 1) xs) (write 0x86 (select d.addr s2)) in
      if d.fw_busy
      then (false, d, s)
      else if not chosen
      then (false, d, s1)
      else (true, record d { cfg = copy_to xs d.cfg }, s3)
