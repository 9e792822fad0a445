-- ===== src/Ds2408/LeafTests.antt =====
-- The leaves of the device of `Tests`, on a bus that confirms.
use in10dhost.Prelude.{
  ◌≡◌, refl, ◌∷◌, [], codes, true, if◌then◌else◌, false, arith, inl, all, ◌++◌, length,
}
use in10dhost.Prelude.Bits.{test_bit}
use in10dhost.FsTable.{took, text}
use in10dhost.Pin.{light, eq_role}
use in10dhost.Ds2408.State.{pio_mask, pin_is_on}
use in10dhost.Ds2408.Roles.{meant}
use in10dhost.Ds2408.Roles.Switched.{role_switch-pins}
use in10dhost.Ds2408.Formats.{fmt_bits, fmt_bits_of, idx_all}
use in10dhost.Ds2408.Leaves.{w_pio, r_pio}
use in10dhost.Ds2408.WriteRead.{pio_field_written}
use in10dhost.Ds2408.Masks.{pio_mask-set}
use in10dhost.Ds2408.Switch.{pio_mask_set, role_switch}
use in10dhost.Ds2408.Config.{cfg_write}
use in10dhost.Ds2408.Settings.{w_cfg, cfg_text}
use in10dhost.Ds2408.Written.{cfg_written_back, cfg_write-unsent}
use in10dhost.Ds2408.Firmware.{fw_run}
use in10dhost.Ds2408.Firmware.Released.{fw_run-free}
use in10dhost.Ds2408.Confirming.{confirming, confirming-Confirms}
use in10dhost.Ds2408.Tests.{dev, dev-IsDev}
use in10dhost.Numbers.{int_max}

-- The dimmed pin 7 and two plain ones go on.
pio_mask-set_example : pio_mask (pio_mask_set confirming dev 0x85 ([], 0)).0 ≡ 0x85
pio_mask-set_example =
    pio_mask-set confirming dev 0x85 ([], 0) confirming-Confirms dev-IsDev refl (omega arith)

pio_field_written_example :
    ((w_pio int_max confirming (codes "1,0,1,0,0,0,0,1" ++ 10 ∷ []) idx_all (dev, ([], 0))).0
      ≡ took 16)
    × ((r_pio int_max confirming false idx_all
          (w_pio int_max confirming
            (codes "1,0,1,0,0,0,0,1" ++ 10 ∷ [])
            idx_all
            (dev, ([], 0))).1).0
        ≡ text (codes "1,0,1,0,0,0,0,1"))
unfolding fmt_bits fmt_bits_of all test_bit
pio_field_written_example =
    pio_field_written int_max idx_all 0x85 (10 ∷ []) confirming dev ([], 0) (omega arith) (inl refl)
      (omega arith) refl confirming-Confirms dev-IsDev refl

cfg_written_back_example :
    w_cfg confirming (cfg_text 4096 0 dev.cfg) (dev, ([], 0))
    ≡ (took (length (cfg_text 4096 0 dev.cfg)), (dev, (cfg_write confirming dev.cfg dev ([], 0)).2))
unfolding all
cfg_written_back_example = cfg_written_back confirming dev ([], 0) 4096 dev-IsDev refl (omega arith)

cfg_write-unsent_example :
    (cfg_write confirming (0x10 ∷ 0x21 ∷ []) dev ([], 0)).2
    ≡ (cfg_write confirming (0x10 ∷ 0x23 ∷ []) dev ([], 0)).2
cfg_write-unsent_example =
    cfg_write-unsent confirming dev ([], 0) (0x10 ∷ []) 0x21 0x23 (omega arith)

-- The device confirms, but knows no bootloader.
fw_run-free_example : (fw_run confirming (λ us s. s) (1 ∷ 2 ∷ []) dev ([], 0)).1.0.fw_busy ≡ false
fw_run-free_example = fw_run-free confirming (λ us s. s) (1 ∷ 2 ∷ []) dev ([], 0)

-- The lamp on pin 2 goes on, with no other pin.
role_switch-pins_example :
    ((role_switch confirming dev light true ([], 0)).0 ≡ 0)
    × (pin_is_on (role_switch confirming dev light true ([], 0)).1 2
        ≡ (if meant dev light 2 then true else pin_is_on dev 2))
role_switch-pins_example =
    role_switch-pins confirming confirming-Confirms dev light true ([], 0) 2 dev-IsDev refl
      (unfold eq_role in refl) (omega arith)
