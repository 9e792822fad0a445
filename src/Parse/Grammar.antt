-- ===== src/Parse/Grammar.antt =====
-- What `parse_num` is documented to take, said without the parser: an optional sign, "0x" for base
-- 16, and one or more digits of the base.
use in10dhost.Prelude.{
  ℕ, ◌+◌, ◌*◌, Bool, true, false, [], ◌∷◌, ◌++◌, ◌≡◌, ◌≢◌, refl, Text, all, Option, none, some,
  arith, ap,
}
use in10dhost.Prelude.Int.{ℤ}
use in10dhost.Numbers.{digit_of, signed, read_num}

pub data Sign : Type 0 where
  unsigned plus minus : Sign

-- The way that base 16 is marked, "0x" or "0X".
pub data Radix : Type 0 where
  decimal hex hex_upper : Radix

pub record Numeral : Type 0 where
  pub sign : Sign
  pub radix : Radix
  pub digits : Text

abbrev pub sign_text : Sign → Text
sign_text unsigned = []
sign_text plus = b'+' ∷ []
sign_text minus = b'-' ∷ []

abbrev pub radix_text : Radix → Text
radix_text decimal = []
radix_text hex = b'0' ∷ b'x' ∷ []
radix_text hex_upper = b'0' ∷ b'X' ∷ []

abbrev pub base : Radix → ℕ
base decimal = 10
base hex = 16
base hex_upper = 16

abbrev pub is_minus : Sign → Bool
is_minus minus = true
is_minus unsigned = false
is_minus plus = false

abbrev pub is_digit_of : ℕ → ℕ → Bool
is_digit_of b c = elim (digit_of b c) [ none ↦ false | some d ↦ true ]

abbrev pub digit_value : ℕ → ℕ → ℕ
digit_value b c = elim (digit_of b c) [ none ↦ 0 | some d ↦ d ]

-- The number of a run of digits, the digits so far being worth `acc`.
unfoldable pub magnitude : ℕ → ℕ → Text → ℕ
magnitude b acc [] = acc
magnitude b acc (c ∷ cs) = magnitude b (acc * b + digit_value b c) cs

abbrev pub spell : Numeral → Text
spell n = sign_text n.sign ++ (radix_text n.radix ++ n.digits)

abbrev pub value : Numeral → ℤ
value n = signed (is_minus n.sign) (magnitude (base n.radix) 0 n.digits)

pub record IsNumeral (n : Numeral) : Type 0 where
  pub some_digit : n.digits ≢ []
  pub only_digits : all (is_digit_of (base n.radix)) n.digits ≡ true

pub read_num-magnitude :
    (b acc : ℕ) (ds : Text)
    → all (is_digit_of b) ds ≡ true
    → read_num b acc ds ≡ (magnitude b acc ds, [])
unfolding read_num magnitude all
read_num-magnitude b acc [] h = refl
read_num-magnitude b acc (c ∷ cs) h =
    ground (arith, read_num-magnitude b (acc * b + digit_value b c) cs)

-- The digits that a reading takes, and that it stops before something else.
pub read_num_split :
    (b acc : ℕ) (s : Text)
    → (ds : Text) × (s ≡ ds ++ (read_num b acc s).1)
      × (all (is_digit_of b) ds ≡ true)
      × ((read_num b acc s).0 ≡ magnitude b acc ds)
unfolding read_num magnitude all
read_num_split b acc [] = ([], refl, refl, refl)
read_num_split b acc (c ∷ cs) = go (digit_of b c) refl (λ a. read_num_split b a cs)
  where
    go :
        (o : Option ℕ)
        → digit_of b c ≡ o
        → ((a : ℕ)
            → (ds : Text) × (cs ≡ ds ++ (read_num b a cs).1)
              × (all (is_digit_of b) ds ≡ true)
              × ((read_num b a cs).0 ≡ magnitude b a ds))
        → (ds : Text) × (c ∷ cs ≡ ds ++ (read_num b acc (c ∷ cs)).1)
          × (all (is_digit_of b) ds ≡ true)
          × ((read_num b acc (c ∷ cs)).0 ≡ magnitude b acc ds)
    go none e rec = ([], rw (e, read_num), refl, rw (e, read_num))
    go (some d) e rec =
        let (ds, p, q, r) = rec (acc * b + d) in
        (c ∷ ds, rw (e, read_num) (ap (λ l. c ∷ l) p), ground (arith, e, q), ground (arith, e, r))
