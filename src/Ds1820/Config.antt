-- ===== src/Ds1820/Config.antt =====
-- What cfg prints, written back.
use in10dhost.Prelude.{
  ℕ, ◌≤◌, ◌<◌, ◌≡◌, refl, ◌∙◌, List, [], ◌∷◌, Text, length, all, arith, true, some, take_all,
}
use in10dhost.Numbers.Hexadecimal.{is_byte}
use in10dhost.Bus.{Bus}
use in10dhost.Ds2408.Settings.{cfg_text, cfg_bytes, words}
use in10dhost.Ds2408.Written.{cfg_bytes-text, copy_self}
use in10dhost.Ds1820.{Ds1820, cfg_size, cfg_write, w_cfg}

cfg_write_self :
    (b : Bus) (d : Ds1820) (s : b.St) → length d.cfg ≡ cfg_size → (cfg_write b d.cfg (d, s)).1.0 ≡ d
unfolding cfg_write
cfg_write_self b d s l = rw (take_all cfg_size d.cfg (omega arith), copy_self d.cfg) (ground arith)

w_cfg_bytes :
    (b : Bus) (buf : Text) (xs : List ℕ) (d : Ds1820) (s : b.St)
    → cfg_bytes cfg_size (words buf) 0 ≡ some xs
    → 0 < length xs
    → (w_cfg b buf (d, s)).1.0 ≡ (cfg_write b xs (d, s)).1.0
unfolding w_cfg
w_cfg_bytes b buf [] d s h l = absurd (omega arith)
w_cfg_bytes b buf (x ∷ xs) d s h l = rw (h, w_cfg) refl

pub cfg_written :
    (b : Bus) (d : Ds1820) (s : b.St) (size : ℕ)
    → length d.cfg ≡ cfg_size
    → all is_byte d.cfg ≡ true
    → 26 ≤ size
    → (w_cfg b (cfg_text size 0 d.cfg) (d, s)).1.0 ≡ d
cfg_written b d s size l hb hs =
    w_cfg_bytes b (cfg_text size 0 d.cfg) d.cfg d s
      (cfg_bytes-text cfg_size size 0 d.cfg (omega arith) (omega arith) hb) (omega arith)
    ∙ cfg_write_self b d s l
