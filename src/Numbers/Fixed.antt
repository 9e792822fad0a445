-- ===== src/Numbers/Fixed.antt =====
-- "%1.2f" of a fraction whose value a float holds exactly: the nearest number of hundredths, and of two
-- that are as near the even one.
use in10dhost.Prelude.{
  ℕ, ◌+◌, ◌*◌, ◌/◌, ◌%◌, ◌<◌, ◌≡◌, suc, refl, ltb, ◌==◌, if◌then◌else◌, [], ◌∷◌, ◌++◌, Text, length,
  arith,
}
use in10dhost.Prelude.Int.{ℤ, pos, negsuc}
use in10dhost.Numbers.Decimal.{decimal, decimal-digit}

unfoldable pub round_even : ℕ → ℕ → ℕ
round_even n d =
    let q = n / d in
    let twice = 2 * (n % d) in
    if ltb twice d then q else if ltb d twice then q + 1 else if q % 2 == 0 then q else q + 1

unfoldable pub hundredths_text : ℕ → Text
hundredths_text h = decimal (h / 100) ++ (b'.' ∷ (48 + h % 100 / 10) ∷ (48 + h % 10) ∷ [])

-- The text of `n / d`.
unfoldable pub fixed2 : ℕ → ℕ → Text
fixed2 d n = hundredths_text (round_even (100 * n) d)

unfoldable pub fixed2_signed : ℕ → ℤ → Text
fixed2_signed d (pos n) = fixed2 d n
fixed2_signed d (negsuc n) = b'-' ∷ fixed2 d (suc n)

pub length-fixed2 : (d n : ℕ) → round_even (100 * n) d < 1000 → length (fixed2 d n) ≡ 4
unfolding fixed2 hundredths_text
length-fixed2 d n h = rw (decimal-digit (round_even (100 * n) d / 100) (omega arith)) refl
