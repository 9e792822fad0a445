-- ===== src/Numbers.antt =====
-- The number conversions of the C++ library that the program calls: `std::stol` with its base,
-- `std::from_chars` to an int, and the decimal digits that `std::format` and `std::to_string` write.
pub mod Decimal
pub mod Hexadecimal
pub mod Fixed
use in10dhost.Prelude.{
  ℕ, zero, suc, ◌+◌, ◌-◌, ◌*◌, ◌/◌, ◌%◌, ◌^◌, Bool, true, false, ◌&&◌, ◌||◌, Option, none, some,
  List, [], ◌∷◌, ◌++◌, Text, is_space, is_digit, is_upper, is_lower, drop_while, ltb, ◌==◌,
  if◌then◌else◌,
}
use in10dhost.Prelude.Int.{ℤ, pos, negsuc}

-- The value of a digit in a base up to 36, as strtol and from_chars take it.
unfoldable pub digit_of : ℕ → ℕ → Option ℕ
digit_of base c =
    let v =
      if is_digit c
      then c - 48
      else if is_upper c
      then c - 55
      else if is_lower c
      then c - 87
      else 36 in
    if ltb v base then some v else none

-- The digits at the front of a text, added to a number read so far, and what follows them.
unfoldable pub read_num : ℕ → ℕ → Text → ℕ × Text
read_num base acc [] = (acc, [])
read_num base acc (c ∷ cs) = elim (digit_of base c) [
  | none ↦ (acc, c ∷ cs)
  | some d ↦ read_num base (acc * base + d) cs
]

unfoldable pub starts_digit : ℕ → Text → Bool
starts_digit base [] = false
starts_digit base (c ∷ cs) = elim (digit_of base c) [ none ↦ false | some d ↦ true ]

pub data NumError : Type 0 where
  invalid_argument out_of_range : NumError

pub data NumResult {ℓ} (A : Type ℓ) : Type ℓ where
  ok : A → NumResult A
  err : NumError → NumResult A

-- The integer of a sign and a magnitude.
abbrev pub neg_of : ℕ → ℤ
neg_of zero = pos 0
neg_of (suc n) = negsuc n

abbrev pub signed : Bool → ℕ → ℤ
signed neg n = if neg then neg_of n else pos n

-- The optional sign: whether it is a minus, and the rest.
unfoldable pub read_sign : Text → Bool × Text
read_sign [] = (false, [])
read_sign (c ∷ cs) =
    if c == b'-' then (true, cs) else if c == b'+' then (false, cs) else (false, c ∷ cs)

is_x : ℕ → Bool
is_x c = c == b'x' || c == b'X'

-- With base 16, a "0x" or "0X" that a hexadecimal digit follows.
unfoldable pub skip_prefix : ℕ → Text → Text
unfolding is_x
skip_prefix base (z ∷ x ∷ cs) =
    if base == 16 && z == b'0' && is_x x && starts_digit 16 cs then cs else z ∷ x ∷ cs
skip_prefix base cs = cs

-- `std::stol(s, &end, base)` where `long` ends at `long_max`: the number and the text from `end`.
module _ (long_max : ℕ) where
  unfoldable pub check_long : Bool → ℕ × Text → NumResult (ℤ × Text)
  check_long neg (n, rest) =
      if ltb (if neg then long_max + 1 else long_max) n
      then err out_of_range
      else ok (signed neg n, rest)

  unfoldable pub stol : ℕ → Text → NumResult (ℤ × Text)
  unfolding check_long
  stol base s =
      let (neg, t) = read_sign (drop_while is_space s) in
      let u = skip_prefix base t in
      if starts_digit base u then check_long neg (read_num base 0 u) else err invalid_argument

abbrev pub int_max : ℕ
int_max = 2 ^ 31 - 1

-- `std::from_chars(ptr, end, int&)`, in base 10: an optional minus, at least one digit, in the range of
-- an int. `none` is an error code, which leaves the int and `ptr` alone.
unfoldable pub check_int : Bool → ℕ × Text → Option (ℤ × Text)
check_int neg (n, rest) =
    if ltb (if neg then int_max + 1 else int_max) n then none else some (signed neg n, rest)

unfoldable pub minus : Text → Bool × Text
minus [] = (false, [])
minus (c ∷ cs) = if c == b'-' then (true, cs) else (false, c ∷ cs)

unfoldable pub from_chars : Text → Option (ℤ × Text)
unfolding minus check_int
from_chars s =
    let (neg, t) = minus s in if starts_digit 10 t then check_int neg (read_num 10 0 t) else none
