-- ===== src/Ds2450.antt =====
-- src/ds2450.cpp: the four-channel analog-digital converter. A voltage is kept in 1024ths of a volt: the
-- source's `raw * 5.0 / 1024` has at most 19 bits, which a float holds exactly. The checksums of the
-- answers are only logged, and left out.
pub mod Volts
mod Tests
use in10dhost.Prelude.{
  ℕ, zero, suc, ◌+◌, ◌-◌, ◌*◌, ◌^◌, Bool, true, false, ◌&&◌, not, Option, none, some, List, [], ◌∷◌,
  ◌++◌, Text, codes, length, get_or, set, ltb, ◌==◌, if◌then◌else◌, ◌⊎◌, inl, inr,
}
use in10dhost.Prelude.Int.{ℤ, pos, negsuc}
use in10dhost.Numbers.Fixed.{fixed2_signed}
use in10dhost.Bus.{Bus, write_all, read_all}
use in10dhost.Switches.Table.{einval, eagain}
use in10dhost.FsTable.{FsEntry, agg_all, Reply, text, error, dir, attr, read_file}
use in10dhost.OwDev
use in10dhost.OwDev.{OwDev}

-- `notified` are the voltages of channel A that `notify_change` was called with, the newest last.
pub record Ds2450 : Type 0 where
  pub base : OwDev
  pub dat : List ℕ
  pub volts : List ℕ
  pub notified : List ℕ

-- -1 as a 16-bit word.
abbrev pub minus_one : ℕ
minus_one = 0xffff

abbrev pub volt_a : Ds2450 → ℕ
volt_a d = get_or d.volts 0 0

-- `adc_get`: -1 V for a channel that there is not.
unfoldable pub adc_get : Ds2450 → ℕ → ℤ
adc_get d ch = if ltb 3 ch then negsuc 1023 else pos (get_or d.volts ch 0)

-- The low byte of each word comes first.
unfoldable pub words_of : List ℕ → List ℕ
words_of [] = []
words_of (lo ∷ []) = []
words_of (lo ∷ hi ∷ xs) = (lo + 256 * hi) ∷ words_of xs

index : Option ℕ → ℕ
index none = 0
index (some i) = i

abbrev pub channels : List ℕ
channels = 0 ∷ 1 ∷ 2 ∷ 3 ∷ []

module _ (b : Bus) where
  open b use {St, select_channel, reset, select}

  abbrev pub Seen : Type 0
  Seen = Ds2450 × St

  unfoldable pub convert : ℕ → St → St
  convert ch s = (reset (read_all b 2 (write_all b (0x3c ∷ 2 ^ ch ∷ 0x55 ∷ []) s)).1).1

  unfoldable pub read_words : St → List ℕ × St
  read_words s =
      let (xs, s1) = read_all b 8 (write_all b (0xAA ∷ 0 ∷ 0 ∷ []) s) in
      (words_of xs, (reset (read_all b 2 s1).1).1)

  -- The answer as a 16-bit word. `flag` is 0 to convert, 2 for the last value read, else a read.
  unfoldable pub adc_read : ℕ → ℕ → Seen → ℕ × Seen
  adc_read ch flag (d, s) =
      let (chosen, s1) = select_channel d.base.bus s in
      let (there, s2) = reset s1 in
      let s3 = select d.base.addr s2 in
      let (dat, s4) = read_words s3 in
      if ltb 3 ch
      then (minus_one, (d, s))
      else if flag == 2
      then (get_or d.dat ch 0, (d, s))
      else if not chosen
      then (minus_one, (d, s1))
      else if not there
      then (minus_one, (d, s2))
      else if flag == 0
      then (0, (d, convert ch s3))
      else (get_or dat ch 0, (record d { dat = dat }, s4))

  -- True is 0, false is EAGAIN.
  unfoldable pub volt_update : ℕ → Seen → Bool × Seen
  volt_update ch w =
      let (started, w1) = adc_read ch 0 w in
      let (raw, (d2, s2)) = adc_read ch 1 w1 in
      if not (started == 0)
      then (false, w1)
      else (true, (record d2 { volts = set d2.volts ch (raw * 5) }, s2))

  -- `none` is -EAGAIN.
  unfoldable pub fs_read_volt : ℕ → Bool → Seen → Option Text × Seen
  fs_read_volt ch uncached w =
      let (ok, w1) = volt_update ch w in
      if not uncached
      then (some (fixed2_signed 1024 (adc_get w.0 ch)), w)
      else if not ok
      then (none, w1)
      else (some (fixed2_signed 1024 (adc_get w1.0 ch)), w1)

  -- The channels in turn behind what the buffer holds already.
  unfoldable pub read_channels : List ℕ → Bool → Text → Seen → Option Text × Seen
  read_channels [] uncached out w = (some out, w)
  read_channels (ch ∷ chs) uncached out w =
      let (t, w1) = fs_read_volt ch uncached w in
      elim t [
        | none ↦ (none, w1)
        | some x ↦ read_channels chs uncached ((if ch == 0 then out else out ++ b',' ∷ []) ++ x) w1
      ]

  replied : Option Text × Seen → Reply × Seen
  replied (none, w) = (error eagain, w)
  replied (some t, w) = (text t, w)

  unfoldable pub r_volt : ℕ → Bool → ℕ → Seen → Reply × Seen
  unfolding replied
  r_volt size uncached idx w =
      if ltb idx 4
      then (if ltb size 5 then (error einval, w) else replied (fs_read_volt idx uncached w))
      else if ltb size 24
      then (error einval, w)
      else replied (read_channels channels uncached [] w)

  -- True is 1, false is EAGAIN.
  unfoldable pub poll : Seen → Bool × Seen
  poll w =
      let (ok, (d1, s1)) = volt_update 0 w in
      if not ok
      then (false, (d1, s1))
      else if volt_a d1 == volt_a w.0
      then (true, (d1, s1))
      else (true, (record d1 { notified = d1.notified ++ volt_a d1 ∷ [] }, s1))

  -- `ds2450::table`
  unfoldable pub table : List (FsEntry Seen)
  unfolding index
  table =
      record {
        name = codes "volt.*";
        suglen = 4;
        count = 4;
        alpha = true;
        visible = none;
        size_cb = none;
        read = some (λ size uncached i. r_volt size uncached (index i));
        write = none;
        aggregate = agg_all;
      }
      ∷ []

  unfoldable pub fs_dir : Seen → Text → List Text
  fs_dir w path = OwDev.fs_dir ++ dir w table path

  unfoldable pub fs_attr : Seen → Text → ℕ
  fs_attr w path = elim (attr w table path) [ some n ↦ n | none ↦ OwDev.fs_attr w.0.base path ]

  unfoldable pub fs_read : ℕ → Bool → Text → Seen → Reply × Seen
  fs_read size uncached path w = elim (read_file table path size uncached w) [
    | some answer ↦ answer
    | none ↦ (OwDev.fs_read size w.0.base path, w)
  ]
