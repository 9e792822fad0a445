-- ===== src/Ds2408/Bitfield.antt =====
-- Reading back the texts of `Formats`.
use in10dhost.Prelude.{
  ℕ, zero, suc, ◌+◌, ◌≤◌, ◌<◌, Bool, true, false, some, List, [], ◌∷◌, ◌++◌, Text, if◌then◌else◌,
  ◌≡◌, ◌≢◌, refl, arith, drop_while, drop_end, same, append-nil, all, length, all_imp, is_digit,
  ◌∙◌, ap, subst,
}
use in10dhost.Prelude.Int.{pos}
use in10dhost.Prelude.Bits.{
  test_bit, set_bit, first8, mask_loop, mask_of, eq_of_bits, mask_of-lt, test_bit-mask_of,
}
use in10dhost.Numbers.{ok, int_max, read_num, digit_of}
use in10dhost.Numbers.Decimal.{decimal, all_digits, read_num-decimal, length-decimal}
use in10dhost.Parse.{parse_num}
use in10dhost.Parse.Exact.{parse_num-spell}
use in10dhost.Parse.Grammar.{
  unsigned, Numeral, IsNumeral, Radix, magnitude, read_num-magnitude, is_digit_of,
}
use in10dhost.Ds2408.Formats.{
  bit_text, fmt_bits_of, fmt_all, items, parse_items, parse_all, parse_byte,
}

same_mask : (bits : ℕ) → bits < 256 → mask_of (test_bit bits) ≡ bits
same_mask bits h =
    eq_of_bits 8 _ _ (mask_of-lt (test_bit bits)) h (λ i l. test_bit-mask_of (test_bit bits) i l)

texts : List ℕ → ℕ → List Text
texts [] bits = []
texts (i ∷ is) bits = bit_text (test_bit bits i) ∷ texts is bits

items_bit : (b : Bool) (rest : Text) → items (bit_text b ++ (b',' ∷ rest)) ≡ bit_text b ∷ items rest
unfolding items
items_bit true rest = refl
items_bit false rest = refl

items_last : (b : Bool) → items (bit_text b) ≡ bit_text b ∷ []
unfolding items
items_last true = refl
items_last false = refl

items-fmt : (is : List ℕ) (bits : ℕ) → items (fmt_bits_of is bits) ≡ texts is bits
unfolding fmt_bits_of texts items
items-fmt [] bits = refl
items-fmt (i ∷ []) bits = items_last (test_bit bits i)
items-fmt (i ∷ j ∷ is) bits =
    items_bit (test_bit bits i) (fmt_bits_of (j ∷ is) bits)
    ∙ ap (λ l. bit_text (test_bit bits i) ∷ l) (items-fmt (j ∷ is) bits)

parse_bit :
    (b : Bool) (xs : List Text) (i acc : ℕ)
    → i < 8
    → parse_items (bit_text b ∷ xs) i acc
      ≡ parse_items xs (i + 1) (if b then set_bit acc i else acc)
unfolding parse_items drop_while drop_end same
parse_bit true xs i acc h = ground arith
parse_bit false xs i acc h = ground arith

-- `n` pins from `i` on.
from : ℕ → ℕ → List ℕ
from zero i = []
from (suc n) i = i ∷ from n (i + 1)

parse_texts :
    (n i bits acc : ℕ)
    → i + n ≡ 8
    → parse_items (texts (from n i) bits) i acc ≡ some (mask_loop (test_bit bits) (from n i) acc)
unfolding texts from mask_loop
parse_texts zero i bits acc h = unfold parse_items in ground arith
parse_texts (suc n) i bits acc h =
    parse_bit (test_bit bits i) _ i acc (omega arith)
    ∙ parse_texts n (i + 1) bits (if test_bit bits i then set_bit acc i else acc) (omega arith)

-- `.ALL` is read as it is written.
pub parse_all-fmt_all : (bits : ℕ) → bits < 256 → parse_all (fmt_all bits) ≡ some bits
unfolding parse_all from
parse_all-fmt_all bits h =
    rw (items-fmt first8 bits) (parse_texts 8 0 bits 0 refl ∙ ap some (same_mask bits h))

abbrev decimal_numeral : ℕ → Numeral
decimal_numeral n = record { sign = unsigned; radix = Radix.decimal; digits = decimal n }

magnitude-decimal :
    (n : ℕ) → all (is_digit_of 10) (decimal n) ≡ true → magnitude 10 0 (decimal n) ≡ n
unfolding read_num
magnitude-decimal n h =
    ground (arith, read_num-magnitude 10 0 (decimal n) h, rw append-nil at (read_num-decimal n []))

digit-is_digit_of : (c : ℕ) → is_digit c ≡ true → is_digit_of 10 c ≡ true
unfolding digit_of
digit-is_digit_of c h = ground arith

not_empty : (s : Text) → 0 < length s → s ≢ []
not_empty [] h = absurd (omega arith)
not_empty (c ∷ cs) h = λ e. cc

decimal-IsNumeral : (n : ℕ) → IsNumeral (decimal_numeral n)
decimal-IsNumeral n = record {
  some_digit = not_empty (decimal n) (length-decimal n);
  only_digits = all_imp _ _ (decimal n) digit-is_digit_of (all_digits n);
}

-- A number is read as it is written.
pub parse_num-decimal : (l n : ℕ) → int_max ≤ l → n ≤ int_max → parse_num l (decimal n) ≡ ok (pos n)
unfolding all
parse_num-decimal l n hl h =
    let m = magnitude-decimal n (decimal-IsNumeral n).only_digits in
    subst (λ k. parse_num l (decimal n) ≡ ok (pos k)) m
      (rw append-nil at (
        parse_num-spell l [] [] (decimal_numeral n) hl (decimal-IsNumeral n) refl refl
          (ground arith) (ground (arith, m))))

-- `.BYTE` is read as it is written.
pub parse_byte-decimal :
    (l bits : ℕ) → int_max ≤ l → bits < 256 → parse_byte l (decimal bits) ≡ some bits
unfolding parse_byte
parse_byte-decimal l bits hl h = rw (parse_num-decimal l bits hl (omega arith)) (ground arith)
