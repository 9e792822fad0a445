-- ===== src/Ds1820.antt =====
-- src/ds1820.cpp: the thermometer. Temperatures are kept in sixteenths of a degree, as the device
-- gives them: the source's `(float)raw / 16.0` is exact.
pub mod Temperature
pub mod Config
mod Tests
use in10dhost.Prelude.{
  ℕ, zero, suc, ◌+◌, ◌-◌, ◌*◌, ◌^◌, Bool, true, false, not, Option, none, some, List, [], ◌∷◌, ◌++◌,
  Text, codes, length, take, get_or, ltb, ◌==◌, if◌then◌else◌, ◌⊎◌, inl, inr,
}
use in10dhost.Prelude.Int.{ℤ, pos, negsuc}
use in10dhost.Numbers.Decimal.{decimal}
use in10dhost.Numbers.Fixed.{fixed2_signed}
use in10dhost.Bus.{Bus, write_all, read_all}
use in10dhost.Switches.Table.{einval, eagain}
use in10dhost.FsTable.{
  FsEntry, agg_none, Reply, text, took, error, dir, attr, read_file, write_file,
}
use in10dhost.OwDev
use in10dhost.OwDev.{OwDev, Written}
use in10dhost.Ds2408.Config.{copy_to}
use in10dhost.Ds2408.Settings.{cfg_text, cfg_bytes, words}

pub record Ds1820 : Type 0 where
  pub base : OwDev
  pub scratch : List ℕ
  pub cfg : List ℕ
  pub temp : ℤ
  pub hum : ℕ
  pub alarm : Bool

-- DS1820_CFG_SIZE
abbrev pub cfg_size : ℕ
cfg_size = 8

-- An `int16_t` of its two bytes.
unfoldable pub raw_of : ℕ → ℕ → ℤ
raw_of msb lsb =
    let w = 256 * msb + lsb in if ltb w (2 ^ 15) then pos w else negsuc (2 ^ 16 - 1 - w)

module _ (b : Bus) where
  open b use {St, select_channel, reset, select, write}

  abbrev pub Seen : Type 0
  Seen = Ds1820 × St

  -- The scratch pad, as it was read, taken over. The answer is in sixteenths, as are -1 and -2.
  unfoldable pub take_over : List ℕ → Ds1820 → ℤ × Ds1820
  take_over xs d =
      let t = raw_of (get_or xs 1 0) (get_or xs 0 0) in
      if get_or xs 1 0 == 0xff
      then (negsuc 31, record d { scratch = xs })
      else (t, record d { scratch = xs; hum = get_or xs 5 0; temp = t })

  -- 0 starts a conversion, 2 sets the alarms, all else reads.
  unfoldable pub temp_read : ℕ → Seen → ℤ × Seen
  temp_read flag (d, s) =
      let (chosen, s1) = select_channel d.base.bus s in
      let s3 = select d.base.addr (reset s1).1 in
      let (xs, s4) = read_all b 9 (write 0xBE s3) in
      let (t, d') = take_over xs d in
      if not chosen
      then (negsuc 15, (d, s1))
      else if flag == 0
      then (pos 0, (d, write 0x44 s3))
      else if flag == 2
      then (pos 0, (d, write_all b (0x4E ∷ 35 ∷ 10 ∷ []) s3))
      else (t, (d', s4))

  -- Starts a conversion, and reads: what `poll` does, which answers 1.
  unfoldable pub measure : Seen → Seen
  measure w = (temp_read 1 (temp_read 0 w).1).1

  abbrev pub poll : Seen → Seen
  poll w = measure w

  unfoldable pub r_temperature : Bool → Seen → Reply × Seen
  r_temperature uncached w =
      let (d, s) = if uncached then measure w else w in
      (text (fixed2_signed 16 d.temp), (record d { alarm = false }, s))

  unfoldable pub r_humidity : Seen → Reply × Seen
  r_humidity (d, s) = (text (decimal d.hum), (d, s))

  -- True is the size, false is -1. The last byte is not read.
  unfoldable pub cfg_read : Seen → Bool × Seen
  cfg_read (d, s) =
      let (chosen, s1) = select_channel d.base.bus s in
      let (xs, s2) = read_all b (cfg_size - 1) (write 0x85 (select d.base.addr (reset s1).1)) in
      if not chosen then (false, (d, s1)) else (true, (record d { cfg = copy_to xs d.cfg }, s2))

  -- True is the number of bytes, false is -1. All but the last are sent.
  unfoldable pub cfg_write : List ℕ → Seen → Bool × Seen
  cfg_write bytes (d, s) =
      let xs = take cfg_size bytes in
      let (chosen, s1) = select_channel d.base.bus s in
      let s2 =
        write_all b (take (length xs - 1) xs) (write 0x86 (select d.base.addr (reset s1).1)) in
      if not chosen then (false, (d, s1)) else (true, (record d { cfg = copy_to xs d.cfg }, s2))

  unfoldable pub r_cfg : ℕ → Bool → Seen → Reply × Seen
  r_cfg size uncached w =
      let (got, w1) = cfg_read w in
      if not uncached
      then (text (cfg_text size 0 w.0.cfg), w)
      else if got
      then (text (cfg_text size 0 w1.0.cfg), w1)
      else (error eagain, w1)

  unfoldable pub w_cfg : Text → Seen → Reply × Seen
  w_cfg buf w = elim (cfg_bytes cfg_size (words buf) 0) [
    | none ↦ (error einval, w)
    | some [] ↦ (error einval, w)
    | some (x ∷ xs) ↦
        let (wrote, w1) = cfg_write (x ∷ xs) w in
        (if wrote then took (length buf) else error eagain, w1)
  ]

  row :
      Text
      → ℕ
      → (ℕ → Bool → Seen → Reply × Seen)
      → Option (Text → Seen → Reply × Seen)
      → FsEntry Seen
  row name suglen read write = record {
    name = name;
    suglen = suglen;
    count = 0;
    alpha = false;
    visible = none;
    size_cb = none;
    read = some (λ size uncached i. read size uncached);
    write = elim write [ none ↦ none | some f ↦ some (λ buf i. f buf) ];
    aggregate = agg_none;
  }

  -- `ds1820::table`
  unfoldable pub table : List (FsEntry Seen)
  unfolding row
  table =
      row (codes "temperature") 5 (λ size uncached. r_temperature uncached) none
      ∷ row (codes "humidity") 4 (λ size uncached. r_humidity) none
      ∷ row (codes "cfg") 24 r_cfg (some w_cfg)
      ∷ []

  unfoldable pub fs_dir : Seen → Text → List Text
  fs_dir w path = OwDev.fs_dir ++ dir w table path

  unfoldable pub fs_attr : Seen → Text → ℕ
  fs_attr w path = elim (attr w table path) [ some n ↦ n | none ↦ OwDev.fs_attr w.0.base path ]

  unfoldable pub fs_read : ℕ → Bool → Text → Seen → Reply × Seen
  fs_read size uncached path w = elim (read_file table path size uncached w) [
    | some answer ↦ answer
    | none ↦ (OwDev.fs_read size w.0.base path, w)
  ]

  -- A row's answer, or that of the files of every device.
  unfoldable pub fs_write : ℕ → Text → Text → Seen → (Reply ⊎ Written) × Seen
  fs_write long_max path buf w = elim (write_file table path buf w) [
    | some (r, w1) ↦ (inl r, w1)
    | none ↦
        let (r, base) = OwDev.fs_write long_max w.0.base path buf in
        (inr r, (record w.0 { base = base }, w.1))
  ]
