-- ===== src/Ds2408/Firmware.antt =====
-- The leaf firmware and the update behind it: `w_firmware`, `fw_enter` and `fw_run`.
pub mod Released
use in10dhost.Prelude.{
  ℕ, ◌+◌, ◌-◌, Bool, true, false, ◌||◌, not, Option, none, some, List, [], ◌∷◌, ◌++◌, Text, length,
  take, drop_end, ◌==◌, if◌then◌else◌,
}
use in10dhost.Prelude.Int.{ℤ}
use in10dhost.Bus.{Bus, write_all}
use in10dhost.Fw.Hex.{FwImage, HexError, loaded, refused, fw_load, too_large, file_too_large}
use in10dhost.Fw.Write.{FwError, fw_flash, is_negative}
use in10dhost.Switches.Table.{Errno, einval, enoent, ebusy, efbig}
use in10dhost.FsTable.{Reply, text, took, error}
use in10dhost.Ds2408.State.{Dev}
use in10dhost.Ds2408.Registers.{reg_read}
use in10dhost.Ds2408.Settings.{has_feature}
use in10dhost.Ds2408.BlLink.{info, exit, link}

-- `fw_status`: the texts as values.
pub data FwStatus : Type 0 where
  idle starting entering starting_app : FwStatus
  no_device no_bootloader : FwStatus
  cannot_open : Text → FwStatus
  bad_file : HexError → FwStatus
  broken_off : FwError → FwStatus
  no_start : ℤ → FwStatus
  done : ℕ → FwStatus

-- The device, the bus, the status, and the image that was handed to the thread of the update.
pub record FwLeaf (b : Bus) : Type 0 where
  pub dev : Dev
  pub bus : Bus.St b
  pub status : FwStatus
  pub queued : Option (List ℕ)

unfoldable pub vis_firmware : Dev → Bool
vis_firmware d = has_feature 0x0109 0x08 d

unfoldable pub load_errno : HexError → Errno
load_errno (too_large n at) = efbig
load_errno (file_too_large n) = efbig
load_errno e = einval

abbrev pub path_end : ℕ → Bool
path_end c = c == 10 || c == 13 || c == 0 || c == b' '

is_empty : Text → Bool
is_empty [] = true
is_empty (c ∷ cs) = false

-- `files` is what a path holds, if it can be opened, and `spell` the text of a status.
module _ (b : Bus) (files : Text → Option Text) (spell : FwStatus → Text) where
  open b use {St}

  unfoldable pub firmware_size : FwLeaf b → ℕ
  firmware_size f = length (spell f.status) + 1

  unfoldable pub r_firmware : ℕ → FwLeaf b → Reply
  r_firmware size f =
      if vis_firmware f.dev
      then text (take (size - 1) (spell f.status ++ 10 ∷ []))
      else error enoent

  start_update : Text → FwLeaf b → FwImage → Reply × FwLeaf b
  start_update buf f (refused e) = (error (load_errno e), record f { status = bad_file e })
  start_update buf f (loaded image) = (
    took (length buf),
    record f { dev = record f.dev { fw_busy = true }; status = starting; queued = some image },
  )

  unfoldable pub w_firmware : Text → FwLeaf b → Reply × FwLeaf b
  unfolding is_empty start_update
  w_firmware buf f =
      let path = drop_end path_end buf in
      if not (vis_firmware f.dev)
      then (error enoent, f)
      else if is_empty path
      then (error einval, f)
      else if f.dev.fw_busy
      then (error ebusy, f)
      else elim (files path) [
        | none ↦ (error enoent, record f { status = cannot_open path })
        | some bytes ↦ start_update buf f (fw_load bytes)
      ]

module _ (b : Bus) (sleep : ℕ → b.St → b.St) where
  open b use {St, select_channel, reset, select, last_err}

  -- BL_ENTER_CMD, BL_ENTER_KEY and its complement
  abbrev pub enter_message : List ℕ
  enter_message = 0x86 ∷ 0xB0 ∷ 0x07 ∷ 0xF8 ∷ []

  -- False is -EIO.
  unfoldable pub fw_enter : Dev → St → Bool × St
  fw_enter d s =
      let (chosen, s1) = select_channel d.bus s in
      let (present, s2) = reset s1 in
      let s3 = write_all b enter_message (select d.addr s2) in
      if not chosen
      then (false, s1)
      else if not present
      then (false, s2)
      else (last_err s3 == 0, s3)

  give_up : FwStatus → Dev → St → FwStatus × (Dev × St)
  give_up e d s = (e, (record d { fw_busy = false }, s))

  -- The device released, and its registers read.
  release : ℕ → Dev → St → FwStatus × (Dev × St)
  release n d s =
      let (_, d1, s1) = reg_read b false (record d { fw_busy = false }) s in (done n, (d1, s1))

  -- From the bootloader back to the application.
  leave : ℕ → Dev → St → FwStatus × (Dev × St)
  unfolding give_up release
  leave n d s =
      let (r, s1) = exit b d.bus d.addr sleep s in
      let over = release n d (sleep 1000000 s1) in
      if is_negative r then give_up (no_start r) d s1 else over

  flash : List ℕ → Dev → St → FwStatus × (Dev × St)
  unfolding leave give_up
  flash image d s =
      let (r, _, s1) = fw_flash (link b d.bus d.addr sleep) image s in
      elim r [ some e ↦ give_up (broken_off e) d s1 | none ↦ leave (length image) d s1 ]

  -- The whole update: what its status is at the end.
  unfoldable pub fw_run : List ℕ → Dev → St → FwStatus × (Dev × St)
  unfolding flash give_up
  fw_run image d s =
      let ((r, _), s1) = info b d.bus d.addr sleep s in
      let (entered, s2) = fw_enter d s1 in
      let ((r2, _), s3) = info b d.bus d.addr sleep (sleep 100000 s2) in
      let direct = flash image d s1 in
      let after = flash image d s3 in
      if not (is_negative r)
      then direct
      else if not entered
      then give_up no_device d s2
      else if is_negative r2
      then give_up no_bootloader d s3
      else after
