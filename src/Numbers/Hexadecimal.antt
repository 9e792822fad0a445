-- ===== src/Numbers/Hexadecimal.antt =====
-- The hex digits of a byte, as the formats "%02X", "0x%02x" and "%X" write them, and reading them.
use in10dhost.Prelude.{
  ℕ, ◌+◌, ◌*◌, ◌/◌, ◌%◌, ◌<◌, Bool, true, false, some, [], ◌∷◌, Text, ltb, if◌then◌else◌, ◌≡◌,
  arith, all, is_xdigit, is_space,
}
use in10dhost.Numbers.{digit_of, read_num}

unfoldable pub upper_digit : ℕ → ℕ
upper_digit d = if ltb d 10 then 48 + d else 55 + d

lower_digit : ℕ → ℕ
lower_digit d = if ltb d 10 then 48 + d else 87 + d

-- "%02X " of a byte
unfoldable pub hex_upper : ℕ → Text
unfolding upper_digit
hex_upper x = upper_digit (x / 16) ∷ upper_digit (x % 16) ∷ []

-- "0x%02x" of a byte
unfoldable pub hex_lower : ℕ → Text
unfolding lower_digit
hex_lower x = b'0' ∷ b'x' ∷ lower_digit (x / 16) ∷ lower_digit (x % 16) ∷ []

-- "%X" of a byte
unfoldable pub hex_short : ℕ → Text
unfolding upper_digit
hex_short x = if ltb x 16 then upper_digit x ∷ [] else hex_upper x

abbrev pub is_byte : ℕ → Bool
is_byte x = ltb x 256

pub digit_solid : (d : ℕ) → d < 16 → is_xdigit (upper_digit d) ≡ true
unfolding upper_digit
digit_solid d h = ground arith

pub digit_value : (d : ℕ) → d < 16 → digit_of 16 (upper_digit d) ≡ some d
unfolding upper_digit digit_of
digit_value d h = ground arith

pub hex_solid : (x : ℕ) → is_byte x ≡ true → all is_xdigit (hex_upper x) ≡ true
unfolding hex_upper all
hex_solid x h =
    ground (arith, digit_solid (x / 16) (ground arith), digit_solid (x % 16) (omega arith))

pub xdigit_solid : (c : ℕ) → is_xdigit c ≡ true → is_space c ≡ false
xdigit_solid c h = ground arith

pub read_digit :
    (a c d : ℕ) (cs : Text)
    → digit_of 16 c ≡ some d
    → d < 16
    → read_num 16 a (c ∷ cs) ≡ read_num 16 (a * 16 + d) cs
unfolding read_num
read_digit a c d cs h l = rw (h, read_num) (ground arith)

pub hex_value-upper : (x : ℕ) → is_byte x ≡ true → (read_num 16 0 (hex_upper x)).0 % 256 ≡ x
unfolding hex_upper read_num
hex_value-upper x h =
    rw
      (
        read_digit 0 (upper_digit (x / 16)) (x / 16) (upper_digit (x % 16) ∷ [])
            (digit_value (x / 16) (ground arith)) (ground arith),
        read_digit (0 * 16 + x / 16) (upper_digit (x % 16)) (x % 16) []
            (digit_value (x % 16) (omega arith)) (omega arith),
      )
      (ground arith)
