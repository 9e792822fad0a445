-- ===== src/Ds2408/Confirming.antt =====
-- A bus whose device confirms every transfer, and answers a custom command with its checksum.
use in10dhost.Prelude.{
  ℕ, ◌+◌, ◌-◌, ◌/◌, ◌%◌, ◌<◌, true, false, List, [], ◌∷◌, ◌++◌, take, get_or, ◌==◌, if◌then◌else◌,
  ◌≡◌, refl, arith,
}
use in10dhost.Bus.{Bus, confirm, retry}
use in10dhost.Crc.{crc16}
use in10dhost.Ds2408.State.{Dev}
use in10dhost.Ds2408.Wire.{pio_set, pio_done, custom_cmd, level_set}
use in10dhost.Ds2408.Masks.{Confirms}

abbrev pub reply_to : List ℕ → ℕ → ℕ
reply_to msg n =
    let sum = 0xffff - crc16 (take 5 msg) 0 in
    if get_or msg 0 0 == 0xC5 then (if n == 0 then sum % 256 else sum / 256 % 256) else confirm

pub reply_to-lt : (msg : List ℕ) (n : ℕ) → reply_to msg n < 256
reply_to-lt msg n = ground arith

-- What was written since the reset, and how many bytes were read.
abbrev pub confirming : Bus
confirming = record {
  St = List ℕ × ℕ;
  select_channel = λ c s. (true, s);
  reset = λ s. (true, ([], 0));
  select = λ a s. s;
  write = λ c (xs, n). (xs ++ c ∷ [], n);
  read = λ (xs, n). (reply_to xs n, (xs, n + 1));
  last_err = λ s. 0;
  read-lt = λ (xs, n). reply_to-lt xs n;
}

confirming-pio :
    (d : Dev) (x : ℕ) (s : List ℕ × ℕ) → d.fw_busy ≡ false → (pio_set confirming d x s).0 ≡ confirm
unfolding pio_set pio_done retry
confirming-pio d x s h = rw h refl

confirming-cmd :
    (d : Dev) (i c v w : ℕ) (s : List ℕ × ℕ)
    → d.fw_busy ≡ false
    → (custom_cmd confirming d i c v w s).0 ≡ confirm
unfolding custom_cmd
confirming-cmd d i c v w s h = rw h (ground arith)

confirming-level :
    (d : Dev) (i v : ℕ) (s : List ℕ × ℕ)
    → d.fw_busy ≡ false
    → (level_set confirming d i v s).0 ≡ confirm
unfolding level_set
confirming-level d i v s h = rw (confirming-cmd d i _ _ _ s h) refl

pub confirming-Confirms : Confirms confirming
confirming-Confirms = record { pio = confirming-pio; lvl = confirming-level }
