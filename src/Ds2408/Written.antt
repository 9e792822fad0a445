-- ===== src/Ds2408/Written.antt =====
-- Writing to cfg: what becomes of the bytes that were read from it, and which bytes are sent.
use in10dhost.Prelude.{
  length-snoc, all_but_last, drop_all, take_all, ℕ, ◌+◌, ◌-◌, ◌*◌, ◌/◌, ◌%◌, ◌≤◌, ◌<◌, true, false,
  not, ◌&&◌, if◌then◌else◌, ◌||◌, some, List, [], ◌∷◌, ◌++◌, Text, ltb, ◌==◌, ◌≡◌, refl, arith, all,
  is_space, length, take, ◌∙◌, ap, append-nil,
}
use in10dhost.Numbers.Hexadecimal.{
  is_byte, hex_upper, upper_digit, digit_solid, xdigit_solid, hex_solid, hex_value-upper,
}
use in10dhost.Bus.{Bus}
use in10dhost.FsTable.{took, error}
use in10dhost.Switches.Table.{eagain}
use in10dhost.Ds2408.State.{Dev, IsDev}
use in10dhost.Ds2408.Config.{cfg_write, copy_to, cfg_size}
use in10dhost.Ds2408.Settings.{cfg_text, split_words, words, cfg_bytes, w_cfg}

split_word :
    (c : ℕ) (cs : Text)
    → is_space c ≡ false
    → split_words (c ∷ cs) ≡ (c ∷ (split_words cs).0, (split_words cs).1)
unfolding split_words
split_word c cs h = rw h refl

split_blank : (cs : Text) → split_words (b' ' ∷ cs) ≡ ([], words cs)
unfolding split_words
split_blank cs = refl

words-hex :
    (x : ℕ) (rest : Text)
    → is_byte x ≡ true
    → words (hex_upper x ++ (b' ' ∷ rest)) ≡ hex_upper x ∷ words rest
unfolding hex_upper
words-hex x rest h =
    let hi_solid = xdigit_solid (upper_digit (x / 16)) (digit_solid (x / 16) (ground arith)) in
    let lo_solid = xdigit_solid (upper_digit (x % 16)) (digit_solid (x % 16) (omega arith)) in
    rw
      (
        split_word (upper_digit (x / 16)) (upper_digit (x % 16) ∷ b' ' ∷ rest) hi_solid,
        split_word (upper_digit (x % 16)) (b' ' ∷ rest) lo_solid,
        split_blank rest,
      )
      refl

length-hex : (x : ℕ) → length (hex_upper x) ≡ 2
unfolding hex_upper
length-hex x = refl

cfg_bytes_step :
    (most x i : ℕ) (toks : List Text) (xs : List ℕ)
    → is_byte x ≡ true
    → i < most
    → cfg_bytes most toks (i + 1) ≡ some xs
    → cfg_bytes most (hex_upper x ∷ toks) i ≡ some (x ∷ xs)
unfolding cfg_bytes
cfg_bytes_step most x i toks xs hb hi e =
    rw (e, hex_value-upper x hb, hex_solid x hb, length-hex x) (ground arith)

pub cfg_bytes-text :
    (most size i : ℕ) (xs : List ℕ)
    → (i + length xs) * 3 < size - 1
    → i + length xs ≤ most
    → all is_byte xs ≡ true
    → cfg_bytes most (words (cfg_text size i xs)) i ≡ some xs
unfolding cfg_text cfg_bytes all split_words
cfg_bytes-text most size i [] h hl hb = refl
cfg_bytes-text most size i (x ∷ xs) h hl hb =
    rw (fits, words-hex x (cfg_text size (i + 1) xs) (ground arith))
      (cfg_bytes_step most x i (words (cfg_text size (i + 1) xs)) xs (ground arith) (omega arith)
        (cfg_bytes-text most size (i + 1) xs (omega arith) (omega arith) (ground arith)))
  where
    fits : (size == 0 || ltb ((i + 1) * 3) (size - 1)) ≡ true
    fits = ground arith

pub copy_self : (xs : List ℕ) → copy_to xs xs ≡ xs
copy_self xs = ap (λ l. xs ++ l) (drop_all xs) ∙ append-nil xs

-- The configuration that a device has, written to it.
cfg_write_self : (b : Bus) (d : Dev) (s : b.St) → IsDev d → (cfg_write b d.cfg d s).1 ≡ d
unfolding cfg_write
cfg_write_self b d s v =
    rw (take_all cfg_size d.cfg (omega (arith, v.cfg_size)), copy_self d.cfg) (ground arith)

w_cfg_bytes :
    (b : Bus) (buf : Text) (xs : List ℕ) (d : Dev) (s : b.St)
    → cfg_bytes cfg_size (words buf) 0 ≡ some xs
    → 0 < length xs
    → w_cfg b buf (d, s) ≡ (
      if (cfg_write b xs d s).0 then took (length buf) else error eagain,
      ((cfg_write b xs d s).1, (cfg_write b xs d s).2),
    )
unfolding w_cfg
w_cfg_bytes b buf [] d s h l = absurd (omega arith)
w_cfg_bytes b buf (x ∷ xs) d s h l = rw (w_cfg, h) refl

cfg_write-answer :
    (b : Bus) (xs : List ℕ) (d : Dev) (s : b.St)
    → (cfg_write b xs d s).0 ≡ (not d.fw_busy && (b.select_channel d.bus s).0)
unfolding cfg_write
cfg_write-answer b xs d s = ground arith

sent_bytes :
    (n : ℕ) (xs : List ℕ) (x : ℕ)
    → length xs < n
    → take (length (take n (xs ++ x ∷ [])) - 1) (take n (xs ++ x ∷ [])) ≡ xs
sent_bytes n xs x h =
    rw (take_all n (xs ++ x ∷ []) (omega (arith, length-snoc xs x))) (all_but_last xs x)

-- What reading cfg prints can be written back as it is, for a configuration of 26 bytes that was
-- printed to a buffer of 80 bytes at least: the write takes its whole size if the device is not
-- being updated and its channel is selected, and else answers -EAGAIN; the device is the same
-- afterwards, and the bus is as `cfg_write` of just these 26 bytes leaves it, whatever it
-- answers.
pub cfg_written_back :
    (b : Bus) (d : Dev) (s : b.St) (size : ℕ)
    → IsDev d
    → all is_byte d.cfg ≡ true
    → 80 ≤ size
    → w_cfg b (cfg_text size 0 d.cfg) (d, s) ≡ (
      if not d.fw_busy && (b.select_channel d.bus s).0
          then took (length (cfg_text size 0 d.cfg))
          else error eagain,
      (d, (cfg_write b d.cfg d s).2),
    )
cfg_written_back b d s size v hb hs =
    w_cfg_bytes b (cfg_text size 0 d.cfg) d.cfg d s
      (cfg_bytes-text cfg_size size 0 d.cfg (omega (arith, v.cfg_size)) (omega (arith, v.cfg_size))
        hb)
      (omega (arith, v.cfg_size))
    ∙ rw (cfg_write-answer b d.cfg d s, cfg_write_self b d s v) refl

-- The last byte of what `cfg_write` is given is not sent: two calls with at most 26 bytes that
-- differ in the last one leave the bus the same.
pub cfg_write-unsent :
    (b : Bus) (d : Dev) (s : b.St) (xs : List ℕ) (x y : ℕ)
    → length xs < cfg_size
    → (cfg_write b (xs ++ x ∷ []) d s).2 ≡ (cfg_write b (xs ++ y ∷ []) d s).2
unfolding cfg_write
cfg_write-unsent b d s xs x y h =
    rw (sent_bytes cfg_size xs x h, sent_bytes cfg_size xs y h) (ground arith)
