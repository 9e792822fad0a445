-- ===== src/Ds2408/Firmware/Released.antt =====
-- An update ends, and the device can be used again.
use in10dhost.Prelude.{ℕ, List, ◌≡◌, refl, false, Bool-cases, Option-cases, inl, inr, length}
use in10dhost.Bus.{Bus}
use in10dhost.Fw.Write.{fw_flash, is_negative}
use in10dhost.Ds2408.State.{Dev}
use in10dhost.Ds2408.Alarm.{reg_read-busy}
use in10dhost.Ds2408.BlLink.{exit, link, info}
use in10dhost.Ds2408.Firmware.{fw_run, flash, leave, release, give_up, fw_enter}

module _ (b : Bus) (sleep : ℕ → b.St → b.St) where
  open b use {St}

  release-free : (n : ℕ) (d : Dev) (s : St) → (release b sleep n d s).1.0.fw_busy ≡ false
  unfolding release
  release-free n d s = reg_read-busy b false (record d { fw_busy = false }) s

  leave-free : (n : ℕ) (d : Dev) (s : St) → (leave b sleep n d s).1.0.fw_busy ≡ false
  unfolding leave give_up
  leave-free n d s = elim (Bool-cases (is_negative (exit b d.bus d.addr sleep s).0)) [
    | inl bad ↦ rw bad refl
    | inr good ↦ rw good (release-free n d _)
  ]

  flash-free : (image : List ℕ) (d : Dev) (s : St) → (flash b sleep image d s).1.0.fw_busy ≡ false
  unfolding flash give_up
  flash-free image d s = elim (Option-cases (fw_flash (link b d.bus d.addr sleep) image s).0) [
    | inl ok ↦ rw (ok, flash) (leave-free (length image) d _)
    | inr (e, bad) ↦ rw (bad, flash) refl
  ]

  -- An update ends and releases its device, whatever the bus and the bootloader answer:
  -- `fw_run` leaves `fw_busy` false.
  pub fw_run-free :
      (image : List ℕ) (d : Dev) (s : St) → (fw_run b sleep image d s).1.0.fw_busy ≡ false
  unfolding fw_run give_up
  fw_run-free image d s = elim (Bool-cases (is_negative (info b d.bus d.addr sleep s).0.0)) [
    | inr up ↦ rw up (flash-free image d _)
    | inl down ↦ rw down (elim (Bool-cases (fw_enter b sleep d (info b d.bus d.addr sleep s).1).0) [
      | inr no_device ↦ rw no_device refl
      | inl entered ↦
          rw entered
            (elim (Bool-cases (
              is_negative
                (info b d.bus d.addr sleep
                  (sleep 100000 (fw_enter b sleep d (info b d.bus d.addr sleep s).1).1)).0.0)) [
                    | inl dead ↦ rw dead refl
                    | inr up ↦ rw up (flash-free image d _)
                  ])
    ])
  ]
