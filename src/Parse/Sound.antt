-- ===== src/Parse/Sound.antt =====
-- What `parse_num` accepts is a numeral of the grammar of `Grammar`, and its value.
use in10dhost.Prelude.{
  ℕ, Bool, true, false, [], ◌∷◌, ◌++◌, ◌≡◌, ◌≢◌, ◌⊎◌, refl, ◌∙◌, ap, Text, all, drop_while,
  drop_while_split, drop_end_split, drop_while_starts, drop_end-starts, drop_while-starts, inl, inr,
  Bool-cases, ◌==◌, is_space, if◌then◌else◌, arith, append-nil,
}
use in10dhost.Prelude.Int.{ℤ, pos, negsuc, ◌≤ℤ◌}
use in10dhost.Numbers.{
  NumResult, ok, err, invalid_argument, int_max, digit_of, starts_digit, read_sign, skip_prefix,
  stol, check_long, read_num, signed,
}
use in10dhost.Parse.{blank, trim, base_of, hex_mark, after_sign, whole, parse_num}
use in10dhost.Parse.Grammar.{
  Sign, unsigned, plus, minus, Radix, decimal, hex, hex_upper, Numeral, sign_text, radix_text, base,
  is_minus, is_digit_of, magnitude, spell, value, IsNumeral, read_num_split,
}

-- What a text has to be for `z` to be its number.
pub record Denotes (s : Text) (z : ℤ) : Type 0 where
  pub numeral : Numeral
  pub before : Text
  pub after : Text
  pub text : s ≡ before ++ (spell numeral ++ after)
  pub blank_before : all blank before ≡ true
  pub blank_after : all blank after ≡ true
  pub well_formed : IsNumeral numeral
  pub worth : value numeral ≡ z
  pub above : negsuc int_max ≤ℤ z
  pub below : z ≤ℤ pos int_max

-- Digits that were read to the end of the text.
record Digits (b : ℕ) (neg : Bool) (u : Text) (z : ℤ) : Type 0 where
  some_digit : u ≢ []
  only_digits : all (is_digit_of b) u ≡ true
  worth : signed neg (magnitude b 0 u) ≡ z
  above : negsuc int_max ≤ℤ z
  below : z ≤ℤ pos int_max

whole-inv :
    (l n : ℕ) (neg : Bool) (rest : Text) (z : ℤ)
    → whole (check_long l neg (n, rest)) ≡ ok z
    → (rest ≡ []) × (signed neg n ≡ z) × (negsuc int_max ≤ℤ z) × (z ≤ℤ pos int_max)
unfolding whole check_long
whole-inv l n neg [] z h = ground arith
whole-inv l n neg (c ∷ cs) z h = ground arith

no_digit : (b : ℕ) (u : Text) → starts_digit b u ≡ true → u ≡ [] → ⊥
unfolding starts_digit
no_digit b [] h e = cc
no_digit b (c ∷ cs) h e = cc

Digits-sound :
    (l b : ℕ) (neg : Bool) (u : Text) (z : ℤ)
    → starts_digit b u ≡ true
    → whole (check_long l neg (read_num b 0 u)) ≡ ok z
    → Digits b neg u z
Digits-sound l b neg u z hs h =
    let (ds, e, all_ds, m) = read_num_split b 0 u in
    let (none_left, w, lo, hi) = whole-inv l (read_num b 0 u).0 neg (read_num b 0 u).1 z h in
    let same_text : u ≡ ds = e ∙ (rw none_left (append-nil ds)) in
    record {
      some_digit = λ n. absurd (no_digit b u hs n);
      only_digits = rw same_text all_ds;
      worth = rw same_text (rw (← m) w);
      above = lo;
      below = hi;
    }

-- The digits after the sign, with the base that the text announces.
after_sign_num : (l : ℕ) (neg : Bool) (u : Text) (b : ℕ) → NumResult (ℤ × Text)
after_sign_num l neg u b =
    let v = skip_prefix b u in
    if starts_digit b v then check_long l neg (read_num b 0 v) else err invalid_argument

record Spelled (neg : Bool) (u : Text) (z : ℤ) : Type 0 where
  radix : Radix
  digits : Text
  text : u ≡ radix_text radix ++ digits
  number : Digits (base radix) neg digits z

skip_ten : (v : Text) → skip_prefix 10 v ≡ v
unfolding skip_prefix
skip_ten [] = refl
skip_ten (c ∷ []) = refl
skip_ten (c ∷ d ∷ cs) = refl

plain :
    (l : ℕ) (neg : Bool) (u : Text) (z : ℤ)
    → whole (after_sign_num l neg u 10) ≡ ok z
    → Spelled neg u z
unfolding after_sign_num whole
plain l neg u z h = elim (Bool-cases (starts_digit 10 u)) [
  | inl s ↦ record {
    radix = decimal;
    digits = u;
    text = refl;
    number = Digits-sound l 10 neg u z s (rw (skip_ten u, s) at h);
  }
  | inr s ↦ absurd (ground (arith, skip_ten u))
]

skip_mark :
    (x : ℕ) (cs : Text)
    → hex_mark (b'0' ∷ x ∷ cs) ≡ true
    → starts_digit 16 cs ≡ true
    → skip_prefix 16 (b'0' ∷ x ∷ cs) ≡ cs
unfolding skip_prefix hex_mark
skip_mark x cs hx s = ground arith

-- Without a digit behind the mark only its zero is read, and the `x` is left over.
bare_mark :
    (l : ℕ) (neg : Bool) (x : ℕ) (cs : Text) (z : ℤ)
    → hex_mark (b'0' ∷ x ∷ cs) ≡ true
    → starts_digit 16 cs ≡ false
    → whole (after_sign_num l neg (b'0' ∷ x ∷ cs) 16) ≢ ok z
unfolding after_sign_num skip_prefix hex_mark whole check_long read_num digit_of starts_digit
bare_mark l neg x cs z hx s h = ground arith

marked :
    (l : ℕ) (neg : Bool) (x : ℕ) (cs : Text) (z : ℤ)
    → hex_mark (b'0' ∷ x ∷ cs) ≡ true
    → whole (after_sign_num l neg (b'0' ∷ x ∷ cs) 16) ≡ ok z
    → Digits 16 neg cs z
unfolding after_sign_num
marked l neg x cs z hx h = elim (Bool-cases (starts_digit 16 cs)) [
  | inl s ↦ Digits-sound l 16 neg cs z s (rw (skip_mark x cs hx s, s) at h)
  | inr s ↦ absurd (bare_mark l neg x cs z hx s h)
]

mark_letter :
    (c x : ℕ) (cs : Text) → hex_mark (c ∷ x ∷ cs) ≡ true → (c ≡ b'0') × ((x ≡ b'x') ⊎ (x ≡ b'X'))
unfolding hex_mark
mark_letter c x cs h = ground arith

with_mark :
    (l : ℕ) (neg : Bool) (c x : ℕ) (cs : Text) (z : ℤ)
    → hex_mark (c ∷ x ∷ cs) ≡ true
    → c ≡ b'0'
    → ((x ≡ b'x') ⊎ (x ≡ b'X'))
    → Digits 16 neg cs z
    → Spelled neg (c ∷ x ∷ cs) z
with_mark l neg c x cs z m e (inl ex) d = record {
  radix = hex;
  digits = cs;
  text = rw (e, ex) refl;
  number = d;
}
with_mark l neg c x cs z m e (inr ex) d = record {
  radix = hex_upper;
  digits = cs;
  text = rw (e, ex) refl;
  number = d;
}

announced : Text → ℕ
announced u = if hex_mark u then 16 else 10

-- After the sign: the radix mark and the digits.
after_sign_sound :
    (l : ℕ) (neg : Bool) (u : Text) (z : ℤ)
    → whole (after_sign_num l neg u (announced u)) ≡ ok z
    → Spelled neg u z
unfolding announced hex_mark
after_sign_sound l neg [] z h = plain l neg [] z h
after_sign_sound l neg (c ∷ []) z h = plain l neg (c ∷ []) z h
after_sign_sound l neg (c ∷ x ∷ cs) z h = elim (Bool-cases (hex_mark (c ∷ x ∷ cs))) [
  | inr m ↦ plain l neg (c ∷ x ∷ cs) z (rw m at h)
  | inl m ↦
      let (zero_first, letter) = mark_letter c x cs m in
      with_mark l neg c x cs z m zero_first letter
        (marked l neg x cs z (rw zero_first at m) (rw (m, zero_first) at h))
]

signed_text :
    (s : Sign) (u : Text) (z : ℤ) (t : Text)
    → t ≡ sign_text s ++ u
    → Spelled (is_minus s) u z
    → (n : Numeral) × (t ≡ spell n)
      × IsNumeral n
      × (value n ≡ z)
      × (negsuc int_max ≤ℤ z)
      × (z ≤ℤ pos int_max)
signed_text s u z t e p = (
  record { sign = s; radix = p.radix; digits = p.digits },
  rw (e, p.text) refl,
  record { some_digit = p.number.some_digit; only_digits = p.number.only_digits },
  p.number.worth,
  p.number.above,
  p.number.below,
)

trimmed_sound :
    (l : ℕ) (t : Text) (z : ℤ)
    → drop_while is_space t ≡ t
    → whole (stol l (base_of t) t) ≡ ok z
    → (n : Numeral) × (t ≡ spell n)
      × IsNumeral n
      × (value n ≡ z)
      × (negsuc int_max ≤ℤ z)
      × (z ≤ℤ pos int_max)
unfolding stol base_of after_sign read_sign after_sign_num announced drop_while hex_mark
trimmed_sound l [] z e h = signed_text unsigned [] z [] refl (after_sign_sound l false [] z h)
trimmed_sound l (c ∷ cs) z e h = elim (Bool-cases (c == b'-')) [
  | inl m ↦
      signed_text minus cs z (c ∷ cs) (ground arith) (after_sign_sound l true cs z (rw (e, m) at h))
  | inr m ↦ elim (Bool-cases (c == b'+')) [
    | inl q ↦
        signed_text plus cs z (c ∷ cs) (ground arith)
          (after_sign_sound l false cs z (rw (e, m, q) at h))
    | inr q ↦
        signed_text unsigned (c ∷ cs) z (c ∷ cs) refl
          (after_sign_sound l false (c ∷ cs) z (rw (e, m, q) at h))
  ]
]

-- The trimmed text does not begin with white space.
trim-front : (s : Text) → drop_while is_space (trim s) ≡ trim s
trim-front s =
    drop_while_starts blank is_space (trim s) (λ c h. ground arith)
      (drop_end-starts blank (drop_while blank s) (drop_while-starts blank s))

-- Whatever `parse_num` accepts is, between white space and NULs, a numeral of its grammar (an
-- optional sign, an optional hexadecimal mark, one digit at least) that denotes the number
-- returned, and that number fits an int.
pub parse_num_sound : (l : ℕ) (s : Text) (z : ℤ) → parse_num l s ≡ ok z → Denotes s z
unfolding parse_num
parse_num_sound l s z h =
    let (pre, e, hpre) = drop_while_split blank s in
    let (post, e', hpost) = drop_end_split blank (drop_while blank s) in
    let (n, t, v, w, lo, hi) = trimmed_sound l (trim s) z (trim-front s) h in
    record {
      numeral = n;
      before = pre;
      after = post;
      text = e ∙ ap (λ u. pre ++ u) (e' ∙ ap (λ u. u ++ post) t);
      blank_before = hpre;
      blank_after = hpost;
      well_formed = v;
      worth = w;
      above = lo;
      below = hi;
    }
