-- ===== src/Ds2408/Formats.antt =====
-- The texts of a ds2408's bit fields: `fmt_all`, `trimmed`, `parse_all`, `parse_byte` and `fmt_bits`.
use in10dhost.Prelude.{
  ℕ, ◌+◌, Bool, ◌||◌, not, Option, none, some, List, [], ◌∷◌, ◌++◌, Text, ltb, ◌==◌, if◌then◌else◌,
  is_space, drop_while, drop_end, same,
}
use in10dhost.Prelude.Find.{cut}
use in10dhost.Prelude.Int.{ℤ, pos, negsuc}
use in10dhost.Prelude.Bits.{test_bit, set_bit, first8}
use in10dhost.Numbers.{ok, err, NumResult}
use in10dhost.Numbers.Decimal.{decimal}
use in10dhost.Parse.{parse_num}

abbrev pub idx_all : ℕ
idx_all = 8

abbrev pub idx_byte : ℕ
idx_byte = 9

abbrev pub bit_text : Bool → Text
bit_text b = (if b then b'1' else b'0') ∷ []

unfoldable pub fmt_bits_of : List ℕ → ℕ → Text
fmt_bits_of [] bits = []
fmt_bits_of (i ∷ is) bits =
    let rest = fmt_bits_of is bits in
    elim is [
      | [] ↦ bit_text (test_bit bits i)
      | j ∷ js ↦ bit_text (test_bit bits i) ++ (b',' ∷ rest)
    ]

-- "b0,b1,...,b7"
abbrev pub fmt_all : ℕ → Text
fmt_all bits = fmt_bits_of first8 bits

-- The text before a NUL, if there is one.
abbrev pub until_nul : Text → Text
until_nul s = elim (cut 0 s) [ none ↦ s | some (a, z) ↦ a ]

abbrev pub trimmed : Text → Text
trimmed s = drop_end is_space (until_nul s)

abbrev glue : ℕ → List Text → List Text
glue c [] = (c ∷ []) ∷ []
glue c (x ∷ xs) = (c ∷ x) ∷ xs

-- What `getline` reads up to each comma: nothing behind a comma at the end.
unfoldable pub items : Text → List Text
items [] = []
items (c ∷ cs) = let rest = items cs in if c == b',' then [] ∷ rest else glue c rest

abbrev pub strip : Text → Text
strip s = drop_end is_space (drop_while is_space s)

-- The loop, with the index and the bits so far.
unfoldable pub parse_items : List Text → ℕ → ℕ → Option ℕ
parse_items [] i bits = if i == 8 then some bits else none
parse_items (x ∷ xs) i bits =
    let one = same (strip x) (b'1' ∷ []) in
    let zero = same (strip x) (b'0' ∷ []) in
    let rest = parse_items xs (i + 1) (if one then set_bit bits i else bits) in
    if ltb 7 i || not (zero || one) then none else rest

unfoldable pub parse_all : Text → Option ℕ
parse_all s = parse_items (items s) 0 0

byte_of : NumResult ℤ → Option ℕ
byte_of (err e) = none
byte_of (ok (negsuc n)) = none
byte_of (ok (pos n)) = if ltb 255 n then none else some n

unfoldable pub parse_byte : ℕ → Text → Option ℕ
unfolding byte_of
parse_byte long_max s = byte_of (parse_num long_max s)

-- One bit, `.ALL` or `.BYTE`.
unfoldable pub fmt_bits : ℕ → ℕ → Text
fmt_bits idx bits =
    if idx == idx_all
    then fmt_all bits
    else if idx == idx_byte
    then decimal bits
    else bit_text (test_bit bits idx)
