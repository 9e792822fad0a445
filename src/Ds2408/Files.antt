-- ===== src/Ds2408/Files.antt =====
-- The files of a ds2408: its rows for `FsTable`, and `fs_dir`, `fs_attr`, `fs_read` and `fs_write`.
use in10dhost.Prelude.{
  ℕ, Bool, true, false, ◌&&◌, not, Option, none, some, List, [], ◌∷◌, ◌++◌, Text, codes, ◌==◌,
  if◌then◌else◌, ◌⊎◌, inl, inr,
}
use in10dhost.Prelude.Find.{occurs}
use in10dhost.Numbers.Decimal.{decimal}
use in10dhost.Bus.{Bus, confirm}
use in10dhost.Switches.Table.{ebusy}
use in10dhost.OwDev
use in10dhost.OwDev.{OwDev, Written}
use in10dhost.FsTable.{
  FsEntry, agg_none, agg_all_byte, Reply, text, error, implied_dir, dir, attr, read_file,
  write_file,
}
use in10dhost.Ds2408.State.{Dev}
use in10dhost.Ds2408.Registers.{reg_read}
use in10dhost.Ds2408.Leaves.{
  vis_pio, vis_sensed, vis_latched, vis_level, r_byte, w_byte, r_pio, w_pio, r_sensed, r_latched,
  w_latched, r_level, w_level,
}
use in10dhost.Ds2408.Settings.{
  r_cfg, w_cfg, r_pin_name, w_pin_name, r_pin_func, w_pin_func, r_pin_role, w_pin_role, r_pin_room,
  w_pin_room, w_threshold, w_brightness, vis_extport, r_extport, w_extport, pin_name_max,
}
use in10dhost.Ds2408.Firmware.{
  FwLeaf, FwStatus, vis_firmware, firmware_size, r_firmware, w_firmware,
}

-- A device: what all have, and what a ds2408 has.
pub record Ds2408 (b : Bus) : Type 0 where
  pub base : OwDev
  pub leaf : FwLeaf b

index : Option ℕ → ℕ
index none = 0
index (some i) = i

-- What takes part in a row: the handlers of `Leaves` and `Settings` on the whole device.
module _ (b : Bus) where
  open b use {St}

  abbrev pub Reader : Type 0
  Reader = ℕ → Bool → Option ℕ → Ds2408 b → Reply × Ds2408 b

  abbrev pub Writer : Type 0
  Writer = Text → Option ℕ → Ds2408 b → Reply × Ds2408 b

  abbrev pub Shown : Type 0
  Shown = Ds2408 b → Option ℕ → Bool

  put_dev : Reply × (Dev × St) → Ds2408 b → Reply × Ds2408 b
  put_dev (r, (d, s)) x = (r, record x { leaf = record x.leaf { dev = d; bus = s } })

  on_bus : (Dev × St → Reply × (Dev × St)) → Ds2408 b → Reply × Ds2408 b
  unfolding put_dev
  on_bus f x = put_dev (f (x.leaf.dev, x.leaf.bus)) x

  on_dev : (Dev → Reply × Dev) → Ds2408 b → Reply × Ds2408 b
  unfolding put_dev
  on_dev f x = let (r, d) = f x.leaf.dev in put_dev (r, (d, x.leaf.bus)) x

  reads : (ℕ → ℕ → Dev → Reply) → Reader
  reads f size uncached i x = (f size (index i) x.leaf.dev, x)

  seen : (Dev → ℕ → Bool) → Shown
  seen v x i = v x.leaf.dev (index i)

  -- A row that reads and writes, without aggregates; and one with them.
  row : Text → ℕ → ℕ → Option Shown → Reader → Option Writer → FsEntry (Ds2408 b)
  row name suglen count visible read write = record {
    name = name;
    suglen = suglen;
    count = count;
    alpha = false;
    visible = visible;
    size_cb = none;
    read = some read;
    write = write;
    aggregate = agg_none;
  }

  field_row : Text → ℕ → Shown → Reader → Option Writer → FsEntry (Ds2408 b)
  unfolding row
  field_row name suglen visible read write = record (row name suglen 8 (some visible) read write) {
    aggregate = agg_all_byte;
  }

  firmware_row : (Text → Option Text) → (FwStatus → Text) → FsEntry (Ds2408 b)
  unfolding row
  firmware_row files spell =
      record (row (codes "firmware") 0 0 (some (λ x i. vis_firmware x.leaf.dev))
        (λ size uncached i x. (r_firmware b files spell size x.leaf, x))
        (some (λ buf i x.
          let (r, f) = w_firmware b files spell buf x.leaf in (r, record x { leaf = f })))) {
            size_cb = some (λ x i. firmware_size b files spell x.leaf);
          }

module _ (long_max : ℕ) (b : Bus) (files : Text → Option Text) (spell : FwStatus → Text) where
  open b use {St}

  -- `ds2408::table`
  unfoldable pub table : List (FsEntry (Ds2408 b))
  unfolding row field_row firmware_row reads seen on_bus on_dev put_dev index
  table =
      field_row b (codes "PIO.*") 3 (seen b vis_pio)
        (λ size u i. on_bus b (r_pio long_max b u (index i)))
        (some (λ buf i. on_bus b (w_pio long_max b buf (index i))))
      ∷ field_row b (codes "sensed.*") 2 (seen b vis_sensed)
          (λ size u i. on_bus b (r_sensed long_max b u (index i))) none
      ∷ field_row b (codes "latch.*") 2 (seen b vis_latched)
          (λ size u i. on_bus b (r_latched long_max b (index i)))
          (some (λ buf i. on_bus b (w_latched long_max b buf)))
      ∷ row b (codes "BYTE") 3 0 none (λ size u i. on_bus b (r_byte long_max b u))
          (some (λ buf i. on_bus b (w_byte long_max b buf)))
      ∷ row b (codes "cfg") 78 0 none (λ size u i. on_bus b (r_cfg b size u))
          (some (λ buf i. on_bus b (w_cfg b buf)))
      ∷ row b (codes "pin.*/name") pin_name_max 8 none (reads b r_pin_name)
          (some (λ buf i. on_dev b (w_pin_name buf (index i))))
      ∷ row b (codes "pin.*/func") 20 8 none (reads b (λ size. r_pin_func))
          (some (λ buf i. on_dev b (w_pin_func long_max buf (index i))))
      ∷ row b (codes "pin.*/role") 10 8 none (reads b r_pin_role)
          (some (λ buf i. on_dev b (w_pin_role buf (index i))))
      ∷ row b (codes "pin.*/room") pin_name_max 8 none (reads b r_pin_room)
          (some (λ buf i. on_dev b (w_pin_room buf (index i))))
      ∷ row b (codes "threshold") 3 0 none (reads b (λ size i d. text (decimal d.threshold)))
          (some (λ buf i. on_bus b (w_threshold long_max b buf)))
      ∷ row b (codes "brightness") 3 0 none (reads b (λ size i d. text (decimal d.brightness)))
          (some (λ buf i. on_bus b (w_brightness long_max b buf)))
      ∷ row b (codes "extport") 9 0 (some (seen b (λ d i. vis_extport d)))
          (reads b (λ size i d. r_extport d)) (some (λ buf i. on_bus b (w_extport long_max b buf)))
      ∷ row b (codes "level.*") 3 8 (some (seen b vis_level))
          (λ size u i. on_bus b (r_level long_max b (index i)))
          (some (λ buf i. on_bus b (w_level long_max b buf (index i))))
      ∷ row b (codes "watchdog") 5 0 none (reads b (λ size i d. text (decimal d.wdt_count))) none
      ∷ row b (codes "crc_errors") 5 0 none (reads b (λ size i d. text (decimal d.crc_errors))) none
      ∷ firmware_row b files spell
      ∷ []

  unfoldable pub fs_dir : Ds2408 b → Text → List Text
  fs_dir x path =
      if implied_dir table path then dir x table path else OwDev.fs_dir ++ dir x table path

  unfoldable pub fs_attr : Ds2408 b → Text → ℕ
  fs_attr x path = elim (attr x table path) [ some n ↦ n | none ↦ OwDev.fs_attr x.base path ]

  -- An update takes the device for itself.
  refused : Ds2408 b → Text → Bool
  refused x path = x.leaf.dev.fw_busy && not (occurs (codes "firmware") path)

  unfoldable pub fs_read : ℕ → Bool → Text → Ds2408 b → Reply × Ds2408 b
  unfolding refused
  fs_read size uncached path x =
      if refused x path then (error ebusy, x) else elim (read_file table path size uncached x) [
        | some answer ↦ answer
        | none ↦ (OwDev.fs_read size x.base path, x)
      ]

  -- A row's answer, or that of the files of every device.
  unfoldable pub fs_write : Text → Text → Ds2408 b → (Reply ⊎ Written) × Ds2408 b
  unfolding refused
  fs_write path buf x =
      if refused x path then (inl (error ebusy), x) else elim (write_file table path buf x) [
        | some (r, y) ↦ (inl r, y)
        | none ↦
            let (w, base) = OwDev.fs_write long_max x.base path buf in
            (inr w, record x { base = base })
      ]

module _ (b : Bus) where
  open b use {St}

  -- `begin(soft)` of a ds2408.
  unfoldable pub begin : Bool → Dev × St → Dev × St
  begin soft (d, s) = let (_, d1, s1) = reg_read b true d s in if soft then (d, s) else (d1, s1)

  -- True is 1: there were registers.
  unfoldable pub poll : Dev × St → Bool × (Dev × St)
  poll (d, s) = let (r, d1, s1) = reg_read b false d s in (r == confirm, (d1, s1))
