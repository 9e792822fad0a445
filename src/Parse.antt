-- ===== src/Parse.antt =====
-- src/parse.cpp: `parse_num`, the number that is written to a leaf of the file system.
pub mod Grammar
pub mod Exact
pub mod Sound
mod Tests
use in10dhost.Prelude.{
  ℕ, ◌+◌, ◌≤◌, Bool, ◌&&◌, ◌||◌, List, [], ◌∷◌, Text, is_space, drop_while, drop_end, ltb, ◌==◌,
  if◌then◌else◌,
}
use in10dhost.Prelude.Int.{ℤ, pos, negsuc, ltb_ℤ}
use in10dhost.Numbers.{NumResult, ok, err, invalid_argument, out_of_range, int_max, stol}

-- White space and the NUL of a C string.
abbrev pub blank : ℕ → Bool
blank c = c == 0 || is_space c

abbrev pub trim : Text → Text
trim s = drop_end blank (drop_while blank s)

is_sign : ℕ → Bool
is_sign c = c == b'-' || c == b'+'

unfoldable pub after_sign : Text → Text
unfolding is_sign
after_sign [] = []
after_sign (c ∷ cs) = if is_sign c then cs else c ∷ cs

unfoldable pub hex_mark : Text → Bool
hex_mark (z ∷ x ∷ cs) = z == b'0' && (x == b'x' || x == b'X')
hex_mark cs = Bool.false

-- 16 after an optional sign and "0x", else 10.
unfoldable pub base_of : Text → ℕ
unfolding after_sign hex_mark
base_of s = if hex_mark (after_sign s) then 16 else 10

int_only : ℤ → NumResult ℤ
int_only v = if ltb_ℤ v (negsuc int_max) || ltb_ℤ (pos int_max) v then err out_of_range else ok v

unfoldable pub whole : NumResult (ℤ × Text) → NumResult ℤ
unfolding int_only
whole (err e) = err e
whole (ok (v, [])) = int_only v
whole (ok (v, c ∷ cs)) = err invalid_argument

-- `long` ends at `long_max`: 2 ^ 63 - 1, or 2 ^ 31 - 1 on the 32-bit ARM build.
module _ (long_max : ℕ) where
  parse_trimmed : Text → NumResult ℤ
  parse_trimmed s = whole (stol long_max (base_of s) s)

  unfoldable pub parse_num : Text → NumResult ℤ
  unfolding parse_trimmed
  parse_num s = parse_trimmed (trim s)
