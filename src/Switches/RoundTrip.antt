-- ===== src/Switches/RoundTrip.antt =====
-- A line of /switches/list, copied up to its names, means the switch that it was written for.
use in10dhost.Prelude.{
  ℕ, ◌<◌, ◌≤◌, ◌≡◌, refl, ap, ◌∙◌, Bool, true, false, not, ◌&&◌, some, [], ◌∷◌, ◌++◌, Text, codes,
  length, is_space, is_digit, drop_while, ◌==◌, arith, length-append, append_assoc, Bool-cases, inl,
  inr,
}
use in10dhost.Prelude.Int.{pos}
use in10dhost.Numbers.{starts_digit, digit_of, int_max}
use in10dhost.Numbers.Decimal.{decimal, from_chars-decimal, starts_decimal, length-decimal}
use in10dhost.Switches.Address.{
  SrcAdr, DstAdr, Switch, IsSrcAdr, IsDstAdr, is_all_off, cond_dark, latch_code,
}
use in10dhost.Switches.Line.{
  delim, read_field, src_of, dst_of, read_option, read_options, starts_decimal_digit, starts_dark,
  plain_all_off, finish, parse_fields, parse_buf, timing_text, cond_text, address_text, line_text,
}

-- The switches that have a line of their own: the latch has a code, a plain switch has no press
-- behaviour, and all lights off has no timing and no condition.
pub record IsListed (sw : Switch) : Type 0 where
  pub src : IsSrcAdr sw.src
  pub dst : IsDstAdr sw.dst
  pub res : sw.src.res ≡ 0
  pub type : sw.dst.type ≡ 0
  pub press : sw.src.press ≤ 2
  pub short_latch : sw.src.press ≡ 0 → sw.src.latch ≤ 10
  pub long_latch : sw.src.press ≡ 1 → (1 ≤ sw.src.latch) × (sw.src.latch ≤ 10)
  pub started_latch : sw.src.press ≡ 2 → 1 ≤ sw.src.latch
  pub secs : sw.secs < 65536
  pub on_press : sw.on_press ≤ 1
  pub plain : sw.secs ≡ 0 → sw.on_press ≡ 0
  pub cond : sw.cond ≤ 1
  pub all_off : is_all_off sw.dst ≡ true → (sw.secs ≡ 0) × (sw.cond ≡ 0)

-- What may follow a line: nothing that reads as a number, white space or "dark".
unfoldable pub stops : Text → Bool
stops [] = true
stops (c ∷ cs) = not (is_digit c) && (not (is_space c) && not (c == b'd'))

digit_starts : (s : Text) → starts_digit 10 s ≡ true → drop_while delim s ≡ s
unfolding starts_digit digit_of drop_while
digit_starts [] h = refl
digit_starts (c ∷ cs) h = ground arith

read_field-decimal :
    (n : ℕ) (rest : Text)
    → n < 256
    → starts_digit 10 rest ≡ false
    → read_field (decimal n ++ rest) ≡ some (n, rest)
unfolding read_field
read_field-decimal n rest h stop =
    rw
      (
        digit_starts (decimal n ++ rest) (starts_decimal n rest),
        from_chars-decimal n rest (omega arith) stop,
        read_field,
      )
      (ground arith)

-- The separators "." and " -> " are skipped.
read_field-dot :
    (n : ℕ) (rest : Text)
    → n < 256
    → starts_digit 10 rest ≡ false
    → read_field (b'.' ∷ (decimal n ++ rest)) ≡ some (n, rest)
unfolding read_field drop_while
read_field-dot n rest h stop = read_field-decimal n rest h stop

read_field-arrow :
    (n : ℕ) (rest : Text)
    → n < 256
    → starts_digit 10 rest ≡ false
    → read_field (codes " -> " ++ (decimal n ++ rest)) ≡ some (n, rest)
unfolding read_field drop_while
read_field-arrow n rest h stop = read_field-decimal n rest h stop

dot_stops : (s : Text) → starts_digit 10 (b'.' ∷ s) ≡ false
unfolding starts_digit digit_of
dot_stops s = refl

arrow_stops : (s : Text) → starts_digit 10 (codes " -> " ++ s) ≡ false
unfolding starts_digit digit_of
arrow_stops s = refl

stops-digit : (rest : Text) → stops rest ≡ true → starts_digit 10 rest ≡ false
unfolding stops starts_digit digit_of
stops-digit [] h = refl
stops-digit (c ∷ cs) h = ground arith

cond_tail : Switch → Text → Text
cond_tail sw rest = cond_text sw ++ rest

cond_tail-stops :
    (sw : Switch) (rest : Text) → stops rest ≡ true → starts_digit 10 (cond_tail sw rest) ≡ false
unfolding cond_tail cond_text starts_digit digit_of
cond_tail-stops sw rest h = elim (Bool-cases (sw.cond == 1)) [
  | inl d ↦ simp d
  | inr n ↦ simp n (stops-digit rest h)
]

stops-space : (rest : Text) → stops rest ≡ true → drop_while is_space rest ≡ rest
unfolding stops drop_while
stops-space [] h = refl
stops-space (c ∷ cs) h = ground arith

stops-dark : (rest : Text) → stops rest ≡ true → starts_dark rest ≡ false
unfolding stops starts_dark
stops-dark [] h = refl
stops-dark (a ∷ []) h = refl
stops-dark (a ∷ c ∷ []) h = refl
stops-dark (a ∷ c ∷ d ∷ []) h = refl
stops-dark (a ∷ c ∷ d ∷ e ∷ cs) h = ground arith

stops-option : (rest : Text) → stops rest ≡ true → starts_decimal_digit rest ≡ false
unfolding stops starts_decimal_digit
stops-option [] h = refl
stops-option (c ∷ cs) h = ground arith

-- The condition, and that no number is read from it.
cond_tail-dark :
    (sw : Switch) (rest : Text)
    → stops rest ≡ true
    → starts_dark (drop_while is_space (cond_tail sw rest)) ≡ (sw.cond == cond_dark)
unfolding cond_tail cond_text drop_while starts_dark
cond_tail-dark sw rest h = elim (Bool-cases (sw.cond == 1)) [
  | inl d ↦ simp d
  | inr n ↦ simp n (simp (stops-space rest h, stops-dark rest h))
]

cond_tail-options :
    (sw : Switch) (rest : Text)
    → stops rest ≡ true
    → read_options (cond_tail sw rest) ≡ (pos 0, pos 0, drop_while is_space (cond_tail sw rest))
unfolding read_options read_option cond_tail cond_text drop_while starts_decimal_digit
cond_tail-options sw rest h = elim (Bool-cases (sw.cond == 1)) [
  | inl d ↦ simp d
  | inr n ↦ simp n (simp (stops-space rest h, stops-option rest h))
]

spaces_once : (s : Text) → drop_while is_space (drop_while is_space s) ≡ drop_while is_space s
unfolding drop_while
spaces_once [] = refl
spaces_once (c ∷ cs) = ground (arith, spaces_once cs)

digit_space : (s : Text) → starts_digit 10 s ≡ true → drop_while is_space s ≡ s
unfolding starts_digit digit_of drop_while
digit_space [] h = refl
digit_space (c ∷ cs) h = ground arith

digit_option : (s : Text) → starts_digit 10 s ≡ true → starts_decimal_digit s ≡ true
unfolding starts_digit digit_of starts_decimal_digit
digit_option [] h = cc
digit_option (c ∷ cs) h = ground arith

read_option-decimal :
    (n : ℕ) (rest : Text)
    → n ≤ int_max
    → starts_digit 10 rest ≡ false
    → read_option (b' ' ∷ (decimal n ++ rest)) ≡ (some (pos n), rest)
unfolding read_option drop_while
read_option-decimal n rest h stop = rw (
  digit_space (decimal n ++ rest) (starts_decimal n rest),
  digit_option (decimal n ++ rest) (starts_decimal n rest),
  from_chars-decimal n rest h stop,
)

space_stops : (s : Text) → starts_digit 10 (b' ' ∷ s) ≡ false
unfolding starts_digit digit_of
space_stops s = refl

timed_options :
    (secs press : ℕ) (rest : Text)
    → secs ≤ int_max
    → press ≤ int_max
    → starts_digit 10 rest ≡ false
    → read_options (b' ' ∷ (decimal secs ++ b' ' ∷ (decimal press ++ rest)))
      ≡ (pos secs, pos press, rest)
unfolding read_options
timed_options secs press rest hs hp stop = ground (
  arith,
  read_option-decimal secs (b' ' ∷ (decimal press ++ rest)) hs
      (space_stops (decimal press ++ rest)),
  read_option-decimal press rest hp stop,
)

tail_of : Switch → Text → Text
tail_of sw rest = timing_text sw ++ (cond_text sw ++ rest)

tail_of-plain :
    (sw : Switch) (rest : Text) → (sw.secs == 0) ≡ true → tail_of sw rest ≡ cond_tail sw rest
unfolding tail_of timing_text cond_tail
tail_of-plain sw rest e = simp e

tail_of-timed :
    (sw : Switch) (rest : Text)
    → (sw.secs == 0) ≡ false
    → tail_of sw rest
      ≡ b' ' ∷ (decimal sw.secs ++ b' ' ∷ (decimal sw.on_press ++ cond_tail sw rest))
unfolding tail_of timing_text cond_tail
tail_of-timed sw rest e = simp e (ap (λ t. b' ' ∷ t) (append_assoc (decimal sw.secs) _ _))

tail_stops :
    (sw : Switch) (rest : Text) → stops rest ≡ true → starts_digit 10 (tail_of sw rest) ≡ false
tail_stops sw rest h = elim (Bool-cases (sw.secs == 0)) [
  | inl p ↦ rw (tail_of-plain sw rest p) (cond_tail-stops sw rest h)
  | inr t ↦ rw (tail_of-timed sw rest t) (space_stops _)
]

-- The timing and the condition.
read_options-tail :
    (sw : Switch) (rest : Text)
    → IsListed sw
    → stops rest ≡ true
    → (r : Text) × (read_options (tail_of sw rest) ≡ (pos sw.secs, pos sw.on_press, r))
      × (starts_dark (drop_while is_space r) ≡ (sw.cond == cond_dark))
read_options-tail sw rest v h = elim (Bool-cases (sw.secs == 0)) [
  | inl p ↦ (
    drop_while is_space (cond_tail sw rest),
    rw (tail_of-plain sw rest p) (cond_tail-options sw rest h ∙ ground (arith, v.plain)),
    rw (spaces_once (cond_tail sw rest)) (cond_tail-dark sw rest h),
  )
  | inr t ↦ (
    cond_tail sw rest,
    rw (tail_of-timed sw rest t) (
        timed_options sw.secs sw.on_press _ (omega arith) (omega arith)
          (cond_tail-stops sw rest h)),
    cond_tail-dark sw rest h,
  )
]

src_of-code :
    (a : SrcAdr)
    → IsSrcAdr a
    → a.res ≡ 0
    → a.press ≤ 2
    → (a.press ≡ 0 → a.latch ≤ 10)
    → (a.press ≡ 1 → (1 ≤ a.latch) × (a.latch ≤ 10))
    → (a.press ≡ 2 → 1 ≤ a.latch)
    → src_of a.bus a.adr (latch_code a) ≡ a
unfolding src_of latch_code
src_of-code a v h p s l t = ground arith

dst_of_self : (a : DstAdr) → IsDstAdr a → a.type ≡ 0 → dst_of a.bus a.adr a.pio ≡ a
unfolding dst_of
dst_of_self a v h = ground arith

latch_code-lt : (a : SrcAdr) → IsSrcAdr a → latch_code a < 256
unfolding latch_code
latch_code-lt a v = ground arith

finish-listed :
    (sw : Switch) (r : Text)
    → IsListed sw
    → starts_dark (drop_while is_space r) ≡ (sw.cond == cond_dark)
    → finish sw.src sw.dst (pos sw.secs, pos sw.on_press, r) ≡ some (record sw { disabled = false })
unfolding finish plain_all_off
finish-listed sw r v h = ground (arith, v.all_off)

parse_fields-line :
    (sw : Switch) (rest : Text)
    → IsListed sw
    → stops rest ≡ true
    → parse_fields (address_text sw (tail_of sw rest)) ≡ some (record sw { disabled = false })
unfolding parse_fields address_text
parse_fields-line sw rest v h =
    let (r, options, dark) = read_options-tail sw rest v h in
    let t6 : Text = tail_of sw rest in
    let t5 : Text = b'.' ∷ (decimal sw.dst.pio ++ t6) in
    let t4 : Text = b'.' ∷ (decimal sw.dst.adr ++ t5) in
    let t3 : Text = codes " -> " ++ (decimal sw.dst.bus ++ t4) in
    let t2 : Text = b'.' ∷ (decimal (latch_code sw.src) ++ t3) in
    let t1 : Text = b'.' ∷ (decimal sw.src.adr ++ t2) in
    ground (
      arith,
      read_field-decimal sw.src.bus t1 (omega arith) (dot_stops _),
      read_field-dot sw.src.adr t2 (omega arith) (dot_stops _),
      read_field-dot (latch_code sw.src) t3 (latch_code-lt sw.src v.src) (arrow_stops _),
      read_field-arrow sw.dst.bus t4 (omega arith) (dot_stops _),
      read_field-dot sw.dst.adr t5 (omega arith) (dot_stops _),
      read_field-dot sw.dst.pio t6 (omega arith) (tail_stops sw rest h),
      options,
      src_of-code sw.src v.src v.res v.press v.short_latch v.long_latch v.started_latch,
      dst_of_self sw.dst v.dst v.type,
      finish-listed sw r v dark,
    )

length-address : (sw : Switch) (rest : Text) → 10 ≤ length (address_text sw rest)
unfolding address_text
length-address sw rest = omega (
  arith,
  length-append {0} (decimal sw.src.bus),
  length-append {0} (decimal sw.src.adr),
  length-append {0} (decimal (latch_code sw.src)),
  length-append {0} (decimal sw.dst.bus),
  length-append {0} (decimal sw.dst.adr),
  length-decimal,
)

-- `parse_buf` reads a line of /switches/list, up to its names, as the switch that it was written
-- for, not masked, for each switch that has a line of its own (`IsListed`) and whatever text
-- follows that neither begins with a digit, white space nor a 'd'.
pub parse_buf-line_text :
    (sw : Switch) (rest : Text)
    → IsListed sw
    → stops rest ≡ true
    → parse_buf (line_text sw rest) ≡ some (record sw { disabled = false })
unfolding parse_buf line_text tail_of
parse_buf-line_text sw rest v h =
    ground (arith, length-address sw (tail_of sw rest), parse_fields-line sw rest v h)
