-- ===== src/Ds2450/Tests.antt =====
-- A converter that measures 2.5 V, and one whose channel is lost after the conversion.
use in10dhost.Prelude.{
  ℕ, zero, suc, ◌+◌, ◌<◌, ◌≤◌, ◌≡◌, refl, true, false, [], ◌∷◌, ◌==◌, ltb, if◌then◌else◌, codes,
  arith, length,
}
use in10dhost.Bus.{Bus, read_all, write_all}
use in10dhost.FsTable.{text}
use in10dhost.OwDev.{ds_running}
use in10dhost.Ds2450.{Ds2450, convert, r_volt}
use in10dhost.Ds2450.Volts.{r_volt-joined, r_volt-lost, shown, joined, IsTenBit}

two_or_zero : (s : ℕ) → (if ltb s 2 then 2 else 0) < 256
two_or_zero s = ground arith

-- The channel can be chosen once.
abbrev once : Bus
once = record {
  St = ℕ;
  select_channel = λ n s. (s == 0, s + 1);
  reset = λ s. (true, s);
  select = λ xs s. s;
  write = λ x s. s;
  read = λ s. (if ltb s 2 then 2 else 0, s);
  last_err = λ s. 0;
  read-lt = two_or_zero;
}

abbrev meter : Ds2450
meter = record {
  base = record {
    rom = codes "20.0300FDFF6677F8";
    rom_code = 0x200300FDFF6677F8;
    kind = codes "ds2450";
    name = [];
    addr = 0x20 ∷ 0x03 ∷ 0x00 ∷ 0xFD ∷ 0xFF ∷ 0x66 ∷ 0x77 ∷ 0xF8 ∷ [];
    id = 3;
    bus = 0;
    state = ds_running;
    poll_interval = 0;
    last_poll = 0;
  };
  dat = 512 ∷ 0 ∷ 1023 ∷ 1 ∷ [];
  volts = 2560 ∷ 0 ∷ 5115 ∷ 5 ∷ [];
  notified = [];
}

meter-IsTenBit : IsTenBit meter
meter-IsTenBit zero = omega arith
meter-IsTenBit (suc zero) = omega arith
meter-IsTenBit (suc (suc zero)) = omega arith
meter-IsTenBit (suc (suc (suc zero))) = omega arith
meter-IsTenBit (suc (suc (suc (suc n)))) = omega arith

r_volt-joined_example :
    ((ch : ℕ) → ch < 4 → (r_volt once 64 false ch (meter, 0)).0 ≡ text (shown meter ch))
    × ((r_volt once 64 false 4 (meter, 0)).0 ≡ text (joined meter))
    × (length (joined meter) + 1 ≤ 64)
r_volt-joined_example = r_volt-joined once meter 0 64 (omega arith) meter-IsTenBit

r_volt-lost_example : (r_volt once 5 true 0 (meter, 0)).0 ≡ text (codes "320.00")
unfolding convert read_all write_all
r_volt-lost_example = r_volt-lost once meter 0 0 5 (omega arith) (omega arith) refl refl refl refl
