-- ===== src/OwDev/Tests.antt =====
-- A switch of the house, as it was scanned.
use in10dhost.Prelude.{c_str, ◌≡◌, refl, ◌∷◌, [], codes, arith, ◌++◌}
use in10dhost.Prelude.Find.{occurs, starts_with}
use in10dhost.FsTable.{text}
use in10dhost.OwDev.{OwDev, ds_running, fs_write, fs_read, wrote}
use in10dhost.OwDev.Files.{fs_write-name}
use in10dhost.Numbers.{int_max}

abbrev thermometer : OwDev
thermometer = record {
  rom = codes "28.0200FDFF667762";
  rom_code = 0;
  kind = codes "ds1820";
  name = [];
  addr = [];
  id = 2;
  bus = 0;
  state = ds_running;
  poll_interval = 60;
  last_poll = 5;
}

fs_write-name_example :
    ((fs_write int_max thermometer (codes "name") (codes "hall" ++ 10 ∷ [])).0 ≡ wrote 5)
    × (fs_read 4096
          (fs_write int_max thermometer (codes "name") (codes "hall" ++ 10 ∷ [])).1
          (codes "name")
        ≡ text (codes "hall"))
unfolding occurs starts_with c_str
fs_write-name_example =
    fs_write-name int_max 4096 thermometer (codes "name") (codes "hall") 10 refl refl refl (λ e. cc)
      (omega arith)
