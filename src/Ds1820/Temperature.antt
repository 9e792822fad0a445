-- ===== src/Ds1820/Temperature.antt =====
-- Which temperatures a reading can leave, and how exactly one is shown.
use in10dhost.Prelude.{
  ℕ, zero, suc, ◌+◌, ◌*◌, ◌≤◌, ◌<◌, ◌≡◌, ◌≢◌, refl, inl, inr, ◌==◌, List, [], ◌∷◌, get_or, arith,
  Bool-cases, Bool, true, false, ap, Text, ◌++◌,
}
use in10dhost.Prelude.Int.{ℤ, pos, negsuc}
use in10dhost.Bus.{Bus, read_all}
use in10dhost.FsTable.{text}
use in10dhost.Numbers.Fixed.{round_even, fixed2, fixed2_signed, hundredths_text}
use in10dhost.Ds1820.{Ds1820, raw_of, take_over, temp_read, measure, r_temperature}

-- Below -16 degrees, or not below 0.
abbrev pub NoFrost : ℤ → Type 0
NoFrost (pos n) = 0 ≤ n
NoFrost (negsuc n) = 256 ≤ n

raw_of-NoFrost : (msb lsb : ℕ) → msb < 256 → lsb < 256 → msb ≢ 255 → NoFrost (raw_of msb lsb)
unfolding raw_of
raw_of-NoFrost msb lsb h l ne = ground arith

read_all-lt : (b : Bus) (n i : ℕ) (s : b.St) → get_or (read_all b n s).0 i 0 < 256
unfolding read_all
read_all-lt b zero i s = omega arith
read_all-lt b (suc n) zero s = b.read-lt s
read_all-lt b (suc n) (suc i) s = read_all-lt b n i (b.read s).1

take_over-NoFrost :
    (b : Bus) (xs : List ℕ) (d : Ds1820)
    → get_or xs 0 0 < 256
    → get_or xs 1 0 < 256
    → NoFrost d.temp
    → NoFrost (take_over b xs d).1.temp
unfolding take_over
take_over-NoFrost b xs d h0 h1 v = elim (Bool-cases (get_or xs 1 0 == 0xff)) [
  | inl e ↦ rw e v
  | inr e ↦ rw e (raw_of-NoFrost (get_or xs 1 0) (get_or xs 0 0) h1 h0 (ground arith))
]

temp_read-NoFrost :
    (b : Bus) (flag : ℕ) (d : Ds1820) (s : b.St)
    → NoFrost d.temp
    → NoFrost (temp_read b flag (d, s)).1.0.temp
unfolding temp_read
temp_read-NoFrost b flag d s v = elim (Bool-cases (select_channel d.base.bus s).0) [
  | inr e ↦ rw e v
  | inl e ↦ rw e (elim (Bool-cases (flag == 0)) [
    | inl z ↦ rw z v
    | inr z ↦ rw z (elim (Bool-cases (flag == 2)) [
      | inl two ↦ rw two v
      | inr two ↦
          rw two
            (taken (b.write 0xBE (select d.base.addr (reset (select_channel d.base.bus s).1).1)))
    ])
  ])
]
  where
    open b use {St, select_channel, reset, select}

    taken : (s' : St) → NoFrost (take_over b (read_all b 9 s').0 d).1.temp
    taken s' =
        take_over-NoFrost b (read_all b 9 s').0 d (read_all-lt b 9 0 s') (read_all-lt b 9 1 s') v

-- A measurement never leaves a temperature from -16 degrees on that is below 0, if there was none
-- before, whatever the bus answers.
pub measure-NoFrost :
    (b : Bus) (d : Ds1820) (s : b.St) → NoFrost d.temp → NoFrost (measure b (d, s)).0.temp
unfolding measure
measure-NoFrost b d s v =
    let (d1, s1) = (temp_read b 0 (d, s)).1 in
    temp_read-NoFrost b 1 d1 s1 (temp_read-NoFrost b 0 d s v)

near :
    (n : ℕ)
    → (16 * round_even (100 * n) 16 ≤ 100 * n + 8) × (100 * n ≤ 16 * round_even (100 * n) 16 + 8)
unfolding round_even
near n = ground arith

abbrev pub sign : ℤ → Text
sign (pos n) = []
sign (negsuc n) = b'-' ∷ []

abbrev pub size_of : ℤ → ℕ
size_of (pos n) = n
size_of (negsuc n) = suc n

shown : (z : ℤ) → fixed2_signed 16 z ≡ sign z ++ hundredths_text (round_even (100 * size_of z) 16)
unfolding fixed2_signed fixed2
shown (pos n) = refl
shown (negsuc n) = refl

-- What the leaf temperature reads, cached or not, is the sign of the temperature that the device
-- then has and a number of hundredths that is off by half a hundredth at most.
pub r_temperature-near :
    (b : Bus) (uncached : Bool) (d : Ds1820) (s : b.St)
    → (h : ℕ) × ((r_temperature b uncached (d, s)).0
        ≡ text (sign (r_temperature b uncached (d, s)).1.0.temp ++ hundredths_text h))
      × (16 * h ≤ 100 * size_of (r_temperature b uncached (d, s)).1.0.temp + 8)
      × (100 * size_of (r_temperature b uncached (d, s)).1.0.temp ≤ 16 * h + 8)
unfolding r_temperature
r_temperature-near b true d s =
    let z = (measure b (d, s)).0.temp in
    (round_even (100 * size_of z) 16, ap text (shown z), (near (size_of z)).0, (near (size_of z)).1)
r_temperature-near b false d s =
    let z = d.temp in
    (round_even (100 * size_of z) 16, ap text (shown z), (near (size_of z)).0, (near (size_of z)).1)
