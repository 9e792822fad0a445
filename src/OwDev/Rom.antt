-- ===== src/OwDev/Rom.antt =====
-- The ROM as devices carry it.
use in10dhost.Prelude.{
  ℕ, ◌/◌, ◌%◌, ◌<◌, true, false, List, [], ◌∷◌, Text, ◌≡◌, refl, arith, ap, drop_while_none,
  is_xdigit, is_space, take, drop,
}
use in10dhost.Numbers.{read_sign, skip_prefix, starts_digit}
use in10dhost.Numbers.Hexadecimal.{
  hex_upper, upper_digit, digit_solid, xdigit_solid, hex_value-upper,
}
use in10dhost.OwDev.{
  hex_of, dotted, byte_at, seven_bytes, all_hex, rom_text, rom_bytes, canonical_rom, crc8,
}

hex_of-lt : (s : Text) → hex_of s < 256
unfolding hex_of
hex_of-lt s = ground arith

byte_at-lt : (s : Text) (i : ℕ) → byte_at s i < 256
unfolding byte_at
byte_at-lt s i = ground (arith, hex_of-lt (take 2 (drop i s)))

sign_none : (c : ℕ) (cs : Text) → is_xdigit c ≡ true → read_sign (c ∷ cs) ≡ (false, c ∷ cs)
unfolding read_sign
sign_none c cs h = ground arith

prefix_none : (z x : ℕ) → skip_prefix 16 (z ∷ x ∷ []) ≡ z ∷ x ∷ []
unfolding skip_prefix starts_digit
prefix_none z x = ground arith

hex_of-upper : (x : ℕ) → x < 256 → hex_of (hex_upper x) ≡ x
unfolding hex_of hex_upper
hex_of-upper x h =
    let solid = digit_solid (x / 16) (omega arith) in
    let value = hex_value-upper x (ground arith) in
    rw
      (
        drop_while_none is_space (upper_digit (x / 16)) (upper_digit (x % 16) ∷ [])
            (xdigit_solid (upper_digit (x / 16)) solid),
        sign_none (upper_digit (x / 16)) (upper_digit (x % 16) ∷ []) solid,
        prefix_none (upper_digit (x / 16)) (upper_digit (x % 16)),
      )
      value

abbrev eight : (a b c d e f g h : ℕ) → List ℕ
eight a b c d e f g h = a ∷ b ∷ c ∷ d ∷ e ∷ f ∷ g ∷ h ∷ []

dotted_rom : (a : ℕ) (xs : List ℕ) → dotted (rom_text (a ∷ xs)) ≡ rom_text (a ∷ xs)
unfolding dotted rom_text hex_upper
dotted_rom a xs = ground arith

seven_of_rom :
    (a b c d e f g h : ℕ)
    → a < 256
    → b < 256
    → c < 256
    → d < 256
    → e < 256
    → f < 256
    → g < 256
    → seven_bytes (rom_text (eight a b c d e f g h)) ≡ a ∷ b ∷ c ∷ d ∷ e ∷ f ∷ g ∷ []
unfolding seven_bytes rom_text all_hex byte_at hex_upper
seven_of_rom a b c d e f g h ha hb hc hd he hf hg =
    rw
      (
        hex_of-upper a ha,
        hex_of-upper b hb,
        hex_of-upper c hc,
        hex_of-upper d hd,
        hex_of-upper e he,
        hex_of-upper f hf,
        hex_of-upper g hg,
      )
      refl

rom_bytes_rom :
    (a b c d e f g h : ℕ)
    → a < 256
    → b < 256
    → c < 256
    → d < 256
    → e < 256
    → f < 256
    → g < 256
    → rom_bytes (rom_text (eight a b c d e f g h))
      ≡ eight a b c d e f g (crc8 (a ∷ b ∷ c ∷ d ∷ e ∷ f ∷ g ∷ []))
unfolding rom_bytes
rom_bytes_rom a b c d e f g h ha hb hc hd he hf hg =
    rw
      (
        dotted_rom a (b ∷ c ∷ d ∷ e ∷ f ∷ g ∷ h ∷ []),
        seven_of_rom a b c d e f g h ha hb hc hd he hf hg,
      )
      refl

-- The canonical form of a ROM, whatever was given, is its own canonical form.
pub canonical_rom_twice : (s : Text) → canonical_rom (canonical_rom s) ≡ canonical_rom s
unfolding canonical_rom rom_bytes seven_bytes
canonical_rom_twice s =
    let at = byte_at (dotted s) in
    let small = byte_at-lt (dotted s) in
    ap rom_text (
      rom_bytes_rom (at 0) (at 3) (at 5) (at 7) (at 9) (at 11) (at 13) _ (small 0) (small 3)
        (small 5) (small 7) (small 9) (small 11) (small 13))
