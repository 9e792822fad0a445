-- ===== src/Ds1820/Tests.antt =====
-- A thermometer at 21.5 degrees on a bus that answers nothing but zeros.
use in10dhost.Prelude.{ℕ, ◌+◌, ◌*◌, ◌≤◌, ◌<◌, ◌≡◌, true, false, [], ◌∷◌, ◌++◌, codes, arith}
use in10dhost.Prelude.Int.{pos}
use in10dhost.Bus.{Bus}
use in10dhost.FsTable.{text}
use in10dhost.Numbers.Fixed.{hundredths_text}
use in10dhost.OwDev.{ds_running}
use in10dhost.Ds1820.{Ds1820, measure, r_temperature}
use in10dhost.Ds1820.Temperature.{NoFrost, measure-NoFrost, r_temperature-near, sign, size_of}

zero_lt : (s : ℕ) → 0 < 256
zero_lt s = omega arith

abbrev quiet : Bus
quiet = record {
  St = ℕ;
  select_channel = λ n s. (true, s);
  reset = λ s. (true, s);
  select = λ xs s. s;
  write = λ x s. s;
  read = λ s. (0, s);
  last_err = λ s. 0;
  read-lt = zero_lt;
}

abbrev attic : Ds1820
attic = record {
  base = record {
    rom = codes "28.0501FAFE6677C6";
    rom_code = 0x280501FAFE6677C6;
    kind = codes "ds1820";
    name = [];
    addr = 0x28 ∷ 0x05 ∷ 0x01 ∷ 0xFA ∷ 0xFE ∷ 0x66 ∷ 0x77 ∷ 0xC6 ∷ [];
    id = 5;
    bus = 1;
    state = ds_running;
    poll_interval = 60;
    last_poll = 0;
  };
  scratch = [];
  cfg = 1 ∷ 2 ∷ 3 ∷ 4 ∷ 5 ∷ 6 ∷ 7 ∷ 255 ∷ [];
  temp = pos 344;
  hum = 50;
  alarm = false;
}

measure-NoFrost_example : NoFrost (measure quiet (attic, 0)).0.temp
measure-NoFrost_example = measure-NoFrost quiet attic 0 (omega arith)

r_temperature-near_example :
    (h : ℕ) × ((r_temperature quiet false (attic, 0)).0
      ≡ text (sign (r_temperature quiet false (attic, 0)).1.0.temp ++ hundredths_text h))
    × (16 * h ≤ 100 * size_of (r_temperature quiet false (attic, 0)).1.0.temp + 8)
    × (100 * size_of (r_temperature quiet false (attic, 0)).1.0.temp ≤ 16 * h + 8)
r_temperature-near_example = r_temperature-near quiet false attic 0
