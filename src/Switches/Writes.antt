-- ===== src/Switches/Writes.antt =====
-- What the writes make of the table.
use in10dhost.Prelude.{
  ℕ, ◌≡◌, refl, ◌∙◌, ap, Bool, true, false, not, none, some, List, [], ◌∷◌, ◌++◌, Text, is_digit,
  all, all_imp, all-append, ◌==◌, arith, Bool-cases, inl, inr, append_assoc, append-nil, length,
  drop_while_none,
}
use in10dhost.Numbers.{from_chars, starts_digit, digit_of, minus}
use in10dhost.Numbers.Decimal.{decimal, all_digits}
use in10dhost.Switches.Address.{Switch, latch_code}
use in10dhost.Switches.Line.{
  parse_buf, parse_fields, read_field, delim, line_text, address_text, timing_text, cond_text,
}
use in10dhost.Switches.RoundTrip.{IsListed, parse_buf-line_text, stops}
use in10dhost.Bus.{Bus}
use in10dhost.OwDev.{OwDev}
use in10dhost.Switches.Handler.{Handler}
use in10dhost.Switches.Leaves.{names_text, lines_text}
use in10dhost.Switches.Table.{Table, upsert, ends_line, each_line, w_add}

-- No character of the text ends a line.
abbrev pub one_line : Text → Bool
one_line l = all (λ c. not (ends_line c)) l

each_line-char {ℓ} :
    {S : Type ℓ} (f : Switch → S → S) (c : ℕ) (cs pending : Text) (s : S)
    → ends_line c ≡ false
    → each_line f (c ∷ cs) pending s ≡ each_line f cs (pending ++ c ∷ []) s
unfolding each_line
each_line-char f c cs pending s h = rw (h, each_line)

-- A line that parses is done, and the reading starts afresh behind it.
each_line-end {ℓ} :
    {S : Type ℓ} (f : Switch → S → S) (cs pending : Text) (sw : Switch) (s : S)
    → parse_buf pending ≡ some sw
    → each_line f (b'\n' ∷ cs) pending s ≡ each_line f cs [] (f sw s)
unfolding each_line
each_line-end f cs pending sw s h = rw (h, each_line)

each_line-read {ℓ} :
    {S : Type ℓ} (f : Switch → S → S) (l rest pending : Text) (s : S)
    → one_line l ≡ true
    → each_line f (l ++ rest) pending s ≡ each_line f rest (pending ++ l) s
unfolding all
each_line-read f [] rest pending s h = rw append-nil
each_line-read f (c ∷ cs) rest pending s h =
    each_line-char f c (cs ++ rest) pending s (ground arith)
    ∙ each_line-read f cs rest (pending ++ c ∷ []) s (ground arith)
    ∙ ap (λ p. each_line f rest p s) (append_assoc pending (c ∷ []) cs)

digits_one_line : (n : ℕ) → one_line (decimal n) ≡ true
digits_one_line n = all_imp is_digit _ (decimal n) (λ c h. ground arith) (all_digits n)

one_line-append :
    (xs ys : Text) → one_line xs ≡ true → one_line ys ≡ true → one_line (xs ++ ys) ≡ true
one_line-append xs ys h k = ground (arith, all-append (λ c. not (ends_line c)) xs ys)

number_then : (n : ℕ) (ys : Text) → one_line ys ≡ true → one_line (decimal n ++ ys) ≡ true
number_then n ys h = one_line-append (decimal n) ys (digits_one_line n) h

one_line-timing : (sw : Switch) → one_line (timing_text sw) ≡ true
unfolding timing_text all
one_line-timing sw = elim (Bool-cases (sw.secs == 0)) [
  | inl p ↦ simp p
  | inr t ↦ simp t (number_then sw.secs _ (digits_one_line sw.on_press))
]

one_line-cond : (sw : Switch) → one_line (cond_text sw) ≡ true
unfolding cond_text all
one_line-cond sw = elim (Bool-cases (sw.cond == 1)) [ inl d ↦ simp d | inr n ↦ simp n ]

-- A line as `list_text` writes it holds no line end, if what it goes on with holds none.
one_line-line_text :
    (sw : Switch) (rest : Text) → one_line rest ≡ true → one_line (line_text sw rest) ≡ true
unfolding line_text address_text all
one_line-line_text sw rest h = number_then sw.src.bus _ (
    number_then sw.src.adr _ (
      number_then (latch_code sw.src) _ (
        number_then sw.dst.bus _ (
          number_then sw.dst.adr _ (
            number_then sw.dst.pio _ (
              one_line-append (timing_text sw) _ (one_line-timing sw)
                (one_line-append (cond_text sw) rest (one_line-cond sw) h)))))))

-- The lines of several switches, without the names that /switches/list puts behind them.
unfoldable pub lines_of : List Switch → Text
lines_of [] = []
lines_of (sw ∷ sws) = line_text sw [] ++ b'\n' ∷ lines_of sws

abbrev pub AllListed : List Switch → Type 0
AllListed [] = Unit {0}
AllListed (sw ∷ sws) = IsListed sw × AllListed sws

abbrev pub unmasked : Switch → Switch
unmasked sw = record sw { disabled = false }

unfoldable pub each_switch {ℓ} : {S : Type ℓ} → (Switch → S → S) → List Switch → S → S
each_switch f [] s = s
each_switch f (sw ∷ sws) s = each_switch f sws (f (unmasked sw) s)

-- Reading the lines of some switches does what is to be done for each, in order.
pub each_line-lines {ℓ} :
    {S : Type ℓ} (f : Switch → S → S) (sws : List Switch) (s : S)
    → AllListed sws
    → each_line f (lines_of sws) [] s ≡ each_switch f sws s
unfolding lines_of each_switch
each_line-lines f [] s v = unfold each_line in refl
each_line-lines f (sw ∷ sws) s v =
    each_line-read f (line_text sw []) (b'\n' ∷ lines_of sws) [] s
      (one_line-line_text sw [] (unfold all in refl))
    ∙ each_line-end f (lines_of sws) (line_text sw []) (unmasked sw) s
        (parse_buf-line_text sw [] v.0 (unfold stops in refl))
    ∙ each_line-lines f sws (f (unmasked sw) s) v.1

module _ (b : Bus) where
  -- The names behind each switch hold no line end.
  abbrev pub NamesInLine : List OwDev → List Switch → ℕ → Handler b → Type 0
  NamesInLine bases [] now h = Unit {0}
  NamesInLine bases (sw ∷ sws) now h =
      (one_line (names_text b bases sw now h) ≡ true) × NamesInLine bases sws now h

  names-stops :
      (bases : List OwDev) (sw : Switch) (now : ℕ) (h : Handler b)
      → stops (names_text b bases sw now h) ≡ true
  unfolding names_text stops
  names-stops bases sw now h = refl

  each_line-lines_text {ℓ} :
      {S : Type ℓ} (f : Switch → S → S) (bases : List OwDev) (sws : List Switch) (now : ℕ)
      (h : Handler b) (s : S)
      → AllListed sws
      → NamesInLine bases sws now h
      → each_line f (lines_text b bases sws now h) [] s ≡ each_switch f sws s
  unfolding lines_text each_switch
  each_line-lines_text f bases [] now h s v n = unfold each_line in refl
  each_line-lines_text f bases (sw ∷ sws) now h s v n =
      let names = names_text b bases sw now h in
      each_line-read f (line_text sw names) (b'\n' ∷ lines_text b bases sws now h) [] s
        (one_line-line_text sw names n.0)
      ∙ each_line-end f (lines_text b bases sws now h) (line_text sw names) (unmasked sw) s
          (parse_buf-line_text sw names v.0 (names-stops bases sw now h))
      ∙ each_line-lines_text f bases sws now h (f (unmasked sw) s) v.1 n.1

  -- Lines copied from /switches/list to /switches/add with the names and timing behind them, of
  -- switches that have a line of their own, are all taken: the table becomes what adding the
  -- switches one after the other, not masked, with `upsert` makes of it, and the write returns
  -- its whole size. The names hold no line end and no NUL.
  pub w_add-lines :
      (bases : List OwDev) (sws : List Switch) (now : ℕ) (h : Handler b) (t : Table)
      → AllListed sws
      → NamesInLine bases sws now h
      → w_add (lines_text b bases sws now h) t
        ≡ (length (lines_text b bases sws now h), each_switch upsert sws t)
  unfolding w_add
  w_add-lines bases sws now h t v n =
      ap (λ x. (length (lines_text b bases sws now h), x))
        (each_line-lines_text upsert bases sws now h t v n)

-- A text whose first character neither belongs to a number nor stands between two never parses.
no_number : (x : ℕ) (cs : Text) → is_digit x ≡ false → delim x ≡ false → from_chars (x ∷ cs) ≡ none
unfolding from_chars starts_digit digit_of minus
no_number x cs hd hs = ground arith

bad_field : (x : ℕ) (cs : Text) → is_digit x ≡ false → delim x ≡ false → read_field (x ∷ cs) ≡ none
unfolding read_field
bad_field x cs hd hs = rw (drop_while_none delim x cs hs, no_number x cs hd hs, read_field)

bad_start : (x : ℕ) (cs : Text) → is_digit x ≡ false → delim x ≡ false → parse_buf (x ∷ cs) ≡ none
unfolding parse_buf parse_fields
bad_start x cs hd hs = ground (arith, bad_field x cs hd hs)

each_line-stuck {ℓ} :
    {S : Type ℓ} (f : Switch → S → S) (buf : Text) (x : ℕ) (pending : Text) (s : S)
    → is_digit x ≡ false
    → delim x ≡ false
    → each_line f buf (x ∷ pending) s ≡ s
unfolding each_line
each_line-stuck f [] x pending s hd hs = refl
each_line-stuck f (c ∷ cs) x pending s hd hs =
    ground (arith, bad_start x pending hd hs, each_line-stuck f cs x (pending ++ c ∷ []) s hd hs)

-- A write to /switches/add whose first character is neither a digit, a delimiter nor a line end
-- adds nothing, however many good lines follow, and returns its whole size all the same.
pub w_add_stuck :
    (x : ℕ) (buf : Text) (t : Table)
    → is_digit x ≡ false
    → delim x ≡ false
    → ends_line x ≡ false
    → w_add (x ∷ buf) t ≡ (length (x ∷ buf), t)
unfolding w_add
w_add_stuck x buf t hd hs he =
    ap (λ y. (length (x ∷ buf), y))
      (each_line-char upsert x buf [] t he ∙ each_line-stuck upsert buf x [] t hd hs)
