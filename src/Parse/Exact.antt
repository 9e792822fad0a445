-- ===== src/Parse/Exact.antt =====
-- `parse_num` against the grammar of `Grammar`.
use in10dhost.Prelude.{
  ℕ, zero, suc, ◌≤◌, Bool, true, false, not, [], ◌∷◌, ◌++◌, ◌≡◌, ◌≢◌, refl, ◌∙◌, Text, all, all_imp,
  drop_while, drop_while-append_all, drop_while_none, drop_end-append_all, drop_end_none, arith,
}
use in10dhost.Prelude.Int.{pos, negsuc, ◌≤ℤ◌}
use in10dhost.Numbers.{
  ok, int_max, digit_of, starts_digit, read_sign, skip_prefix, stol, check_long, signed,
}
use in10dhost.Parse.{blank, trim, base_of, whole, parse_num}
use in10dhost.Parse.Grammar.{
  Sign, unsigned, plus, minus, Radix, decimal, hex, hex_upper, Numeral, sign_text, radix_text, base,
  is_minus, is_digit_of, magnitude, spell, value, IsNumeral, read_num-magnitude,
}

abbrev solid : ℕ → Bool
solid c = not (blank c)

digit-solid : (r : Radix) (c : ℕ) → is_digit_of (base r) c ≡ true → solid c ≡ true
unfolding digit_of
digit-solid decimal c h = ground arith
digit-solid hex c h = ground arith
digit-solid hex_upper c h = ground arith

radix-solid : (r : Radix) (ds : Text) → all solid ds ≡ true → all solid (radix_text r ++ ds) ≡ true
unfolding all
radix-solid decimal ds h = h
radix-solid hex ds h = h
radix-solid hex_upper ds h = h

sign-solid : (s : Sign) (ds : Text) → all solid ds ≡ true → all solid (sign_text s ++ ds) ≡ true
unfolding all
sign-solid unsigned ds h = h
sign-solid plus ds h = h
sign-solid minus ds h = h

spell-solid : (n : Numeral) → IsNumeral n → all solid (spell n) ≡ true
spell-solid n v =
    sign-solid n.sign _
      (radix-solid n.radix n.digits (all_imp _ _ n.digits (digit-solid n.radix) v.only_digits))

trim-solid :
    (pre s post : Text)
    → all blank pre ≡ true
    → all solid s ≡ true
    → s ≢ []
    → all blank post ≡ true
    → trim (pre ++ (s ++ post)) ≡ s
unfolding all
trim-solid pre [] post hpre hs ne hpost = absurd (ne refl)
trim-solid pre (x ∷ xs) post hpre hs ne hpost =
    rw (drop_while-append_all blank pre _ hpre, drop_while_none blank x (xs ++ post) (ground arith))
      (drop_end-append_all blank (x ∷ xs) post hpost ∙ drop_end_none blank (x ∷ xs) hs)

base_of-parts :
    (s : Sign) (r : Radix) (ds : Text)
    → all (is_digit_of (base r)) ds ≡ true
    → ds ≢ []
    → base_of (sign_text s ++ (radix_text r ++ ds)) ≡ base r
unfolding base_of all digit_of
base_of-parts s decimal [] h ne = absurd (ne refl)
base_of-parts s decimal (c ∷ []) h ne = ground arith
base_of-parts s decimal (c ∷ d ∷ ds) h ne = ground arith
base_of-parts s hex ds h ne = ground arith
base_of-parts s hex_upper ds h ne = ground arith

stol-parts :
    (l : ℕ) (s : Sign) (r : Radix) (ds : Text)
    → all (is_digit_of (base r)) ds ≡ true
    → ds ≢ []
    → stol l (base r) (sign_text s ++ (radix_text r ++ ds))
      ≡ check_long l (is_minus s) (magnitude (base r) 0 ds, [])
unfolding stol all starts_digit read_sign skip_prefix drop_while digit_of
stol-parts l s r [] h ne = absurd (ne refl)
stol-parts l unsigned decimal (c ∷ []) h ne = ground (arith, read_num-magnitude 10 0 (c ∷ []) h)
stol-parts l unsigned decimal (c ∷ d ∷ ds) h ne =
    ground (arith, read_num-magnitude 10 0 (c ∷ d ∷ ds) h)
stol-parts l plus decimal (c ∷ ds) h ne = ground (arith, read_num-magnitude 10 0 (c ∷ ds) h)
stol-parts l minus decimal (c ∷ ds) h ne = ground (arith, read_num-magnitude 10 0 (c ∷ ds) h)
stol-parts l s hex (c ∷ ds) h ne = ground (arith, read_num-magnitude 16 0 (c ∷ ds) h)
stol-parts l s hex_upper (c ∷ ds) h ne = ground (arith, read_num-magnitude 16 0 (c ∷ ds) h)

spell-ne-nil :
    (s : Sign) (r : Radix) (ds : Text) → ds ≢ [] → sign_text s ++ (radix_text r ++ ds) ≢ []
spell-ne-nil s r [] ne = absurd (ne refl)
spell-ne-nil s r (c ∷ ds) ne = ground arith

-- A value in the range of an int is in the range of `long`.
int_fits :
    (l : ℕ) (neg : Bool) (n : ℕ)
    → int_max ≤ l
    → negsuc int_max ≤ℤ signed neg n
    → signed neg n ≤ℤ pos int_max
    → whole (check_long l neg (n, [])) ≡ ok (signed neg n)
unfolding whole check_long
int_fits l true zero h lo hi = ground arith
int_fits l true (suc n) h lo hi = ground arith
int_fits l false n h lo hi = ground arith

-- `parse_num` accepts each spelling of a numeral whose value fits an int, with white space or
-- NULs before and behind, and returns its value, where a long is at least as large as an int.
pub parse_num-spell :
    (l : ℕ) (pre post : Text) (n : Numeral)
    → int_max ≤ l
    → IsNumeral n
    → all blank pre ≡ true
    → all blank post ≡ true
    → negsuc int_max ≤ℤ value n
    → value n ≤ℤ pos int_max
    → parse_num l (pre ++ (spell n ++ post)) ≡ ok (value n)
unfolding parse_num
parse_num-spell l pre post n hl v hpre hpost lo hi =
    rw
      (trim-solid pre (spell n) post hpre (spell-solid n v)
        (spell-ne-nil n.sign n.radix n.digits v.some_digit) hpost)
      (rw (base_of-parts n.sign n.radix n.digits v.only_digits v.some_digit) (
        rw (stol-parts l n.sign n.radix n.digits v.only_digits v.some_digit)
          (int_fits l (is_minus n.sign) _ hl lo hi)))
