-- ===== src/Parse/Tests.antt =====
-- Runs of `parse_num`, and its theorems at concrete texts.
use in10dhost.Prelude.{
  ◌≡◌, refl, ◌++◌, [], ◌∷◌, codes, ◌^◌, ◌-◌, arith, ℕ, all, drop_while, drop_end,
}
use in10dhost.Prelude.Int.{pos, negsuc}
use in10dhost.Numbers.{
  ok, err, invalid_argument, out_of_range, stol, digit_of, read_num, read_sign, skip_prefix,
  starts_digit,
}
use in10dhost.Parse.{parse_num, base_of, whole, after_sign, hex_mark}
use in10dhost.Parse.Grammar.{Numeral, minus, hex, IsNumeral, magnitude}
use in10dhost.Parse.Exact.{parse_num-spell}
use in10dhost.Parse.Sound.{parse_num_sound, Denotes}

abbrev long_max : ℕ
long_max = 2 ^ 63 - 1

abbrev minus_hex : Numeral
minus_hex = record { sign = minus; radix = hex; digits = codes "1f" }

minus_hex-IsNumeral : IsNumeral minus_hex
unfolding all digit_of
minus_hex-IsNumeral = record { some_digit = λ e. cc; only_digits = refl }

not_octal : parse_num long_max (codes " 010") ≡ ok (pos 10)
unfolding parse_num base_of whole stol after_sign hex_mark read_sign skip_prefix starts_digit
    read_num digit_of drop_while drop_end
not_octal = refl

trailing : parse_num long_max (codes "12abc") ≡ err invalid_argument
unfolding parse_num base_of whole stol after_sign hex_mark read_sign skip_prefix starts_digit
    read_num digit_of drop_while drop_end
trailing = refl

too_large : parse_num long_max (codes "2147483648") ≡ err out_of_range
unfolding parse_num base_of whole stol after_sign hex_mark read_sign skip_prefix starts_digit
    read_num digit_of drop_while drop_end
too_large = refl

parse_num-spell_example :
    parse_num long_max (codes " " ++ (codes "-0x1f" ++ 0 ∷ [])) ≡ ok (negsuc 30)
unfolding all digit_of magnitude
parse_num-spell_example =
    parse_num-spell long_max (codes " ") (0 ∷ []) minus_hex (omega arith) minus_hex-IsNumeral refl
      refl (omega arith) (omega arith)

parse_num_sound_example : Denotes (codes "0xFE\n") (pos 254)
unfolding parse_num base_of whole stol after_sign hex_mark read_sign skip_prefix starts_digit
    read_num digit_of drop_while drop_end
parse_num_sound_example = parse_num_sound long_max (codes "0xFE\n") (pos 254) refl
