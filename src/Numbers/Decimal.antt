-- ===== src/Numbers/Decimal.antt =====
-- The decimal digits of a number, and that reading them gives the number back.
use in10dhost.Prelude.{
  ℕ, zero, suc, ◌+◌, ◌*◌, ◌/◌, ◌%◌, ◌<◌, ◌≡◌, refl, ◌∙◌, true, false, some, [], ◌∷◌, ◌++◌, Text,
  append_assoc, ltb, if◌then◌else◌, arith, Bool-cases, inl, inr, all, is_digit, ap, all-append,
}
use in10dhost.Numbers.{digit_of, read_num, starts_digit, from_chars, minus, int_max}
use in10dhost.Prelude.Int.{pos}
use in10dhost.Prelude.{length, append-nil, ◌≤◌, false}

decimal_fuel : ℕ → ℕ → Text
decimal_fuel zero n = []
decimal_fuel (suc f) n =
    let high = decimal_fuel f (n / 10) ++ (48 + n % 10) ∷ [] in
    if ltb n 10 then (48 + n) ∷ [] else high

-- `n` has at most `n + 1` digits.
unfoldable pub decimal : ℕ → Text
unfolding decimal_fuel
decimal n = decimal_fuel (suc n) n

pub digit_of-decimal : (d : ℕ) → d < 10 → digit_of 10 (48 + d) ≡ some d
unfolding digit_of
digit_of-decimal d h = ground arith

read_num-digit :
    (a d : ℕ) (rest : Text)
    → d < 10
    → read_num 10 a ((48 + d) ∷ rest) ≡ read_num 10 (a * 10 + d) rest
unfolding read_num
read_num-digit a d rest h = rw (digit_of-decimal d h, read_num)

read_num-decimal_fuel :
    (f n : ℕ) (rest : Text) → n < f → read_num 10 0 (decimal_fuel f n ++ rest) ≡ read_num 10 n rest
unfolding decimal_fuel
read_num-decimal_fuel zero n rest h = elim h [ ]
read_num-decimal_fuel (suc f) n rest h = elim (Bool-cases (ltb n 10)) [
  | inl small ↦
      rw small (read_num-digit 0 n rest (ground arith) ∙ ap (λ k. read_num 10 k rest) (omega arith))
  | inr large ↦ rw large (
      rw append_assoc (
        read_num-decimal_fuel f (n / 10) ((48 + n % 10) ∷ rest) (ground arith)
        ∙ read_num-digit (n / 10) (n % 10) rest (omega arith)
        ∙ ap (λ k. read_num 10 k rest) (omega arith)))
]

-- Reading past the digits of `n` gives `n`, whatever else follows.
pub read_num-decimal :
    (n : ℕ) (rest : Text) → read_num 10 0 (decimal n ++ rest) ≡ read_num 10 n rest
unfolding decimal
read_num-decimal n rest = read_num-decimal_fuel (suc n) n rest (omega arith)

pub read_num_stop :
    (base acc : ℕ) (rest : Text)
    → starts_digit base rest ≡ false
    → read_num base acc rest ≡ (acc, rest)
unfolding read_num starts_digit
read_num_stop base acc [] h = refl
read_num_stop base acc (c ∷ cs) h = ground arith

all_digits_fuel : (f n : ℕ) → all is_digit (decimal_fuel f n) ≡ true
unfolding decimal_fuel all
all_digits_fuel zero n = refl
all_digits_fuel (suc f) n = ground (
  arith,
  all_digits_fuel f (n / 10),
  all-append is_digit (decimal_fuel f (n / 10)) ((48 + n % 10) ∷ []),
)

pub all_digits : (n : ℕ) → all is_digit (decimal n) ≡ true
unfolding decimal
all_digits n = all_digits_fuel (suc n) n

starts_decimal_fuel :
    (f n : ℕ) (rest : Text) → n < f → starts_digit 10 (decimal_fuel f n ++ rest) ≡ true
unfolding decimal_fuel starts_digit
starts_decimal_fuel zero n rest h = elim h [ ]
starts_decimal_fuel (suc f) n rest h = elim (Bool-cases (ltb n 10)) [
  | inl small ↦ rw small (rw (digit_of-decimal n (ground arith), starts_digit))
  | inr large ↦ rw large (rw append_assoc (starts_decimal_fuel f (n / 10) _ (ground arith)))
]

pub starts_decimal : (n : ℕ) (rest : Text) → starts_digit 10 (decimal n ++ rest) ≡ true
unfolding decimal
starts_decimal n rest = starts_decimal_fuel (suc n) n rest (omega arith)

-- A text that begins with a digit begins with no minus.
minus_digit : (s : Text) → starts_digit 10 s ≡ true → minus s ≡ (false, s)
unfolding minus starts_digit digit_of
minus_digit [] h = cc
minus_digit (c ∷ cs) h = ground arith

-- `from_chars` reads back what `std::format` wrote, up to something that is no digit.
pub from_chars-decimal :
    (n : ℕ) (rest : Text)
    → n ≤ int_max
    → starts_digit 10 rest ≡ false
    → from_chars (decimal n ++ rest) ≡ some (pos n, rest)
unfolding from_chars
from_chars-decimal n rest h stop =
    rw
      (
        minus_digit (decimal n ++ rest) (starts_decimal n rest),
        starts_decimal n rest,
        read_num-decimal n rest,
        read_num_stop 10 n rest stop,
      )
      (ground arith)

nothing_starts : starts_digit 10 [] ≡ true → ⊥
unfolding starts_digit
nothing_starts h = cc

pub length-decimal : (n : ℕ) → 0 < length (decimal n)
length-decimal n = go (decimal n) (rw append-nil at (starts_decimal n []))
  where
    go : (s : Text) → starts_digit 10 s ≡ true → 0 < length s
    go [] h = absurd (nothing_starts h)
    go (c ∷ cs) h = omega arith

pub decimal-digit : (n : ℕ) → n < 10 → decimal n ≡ (48 + n) ∷ []
unfolding decimal decimal_fuel
decimal-digit n h = ground arith
