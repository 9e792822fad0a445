-- ===== src/Switches/Line.antt =====
-- `parse_buf` of src/switch_handler.cpp: a line as it is written to /switches/add, and the part of a
-- line of /switches/list that has the same form.
use in10dhost.Prelude.{
  ℕ, ◌-◌, ◌%◌, Bool, false, not, ◌&&◌, ◌||◌, Option, none, some, [], ◌∷◌, ◌++◌, Text, codes, length,
  is_space, is_digit, drop_while, ltb, ◌==◌, if◌then◌else◌,
}
use in10dhost.Prelude.Int.{ℤ, pos, negsuc, ltb_ℤ}
use in10dhost.Numbers.{from_chars}
use in10dhost.Numbers.Decimal.{decimal}
use in10dhost.Switches.Address.{
  SrcAdr, DstAdr, Switch, is_all_off, on_press_retrigger, on_press_off, cond_none, cond_dark,
  latch_code,
}

infixl 5 ◌>>=◌
abbrev ◌>>=◌ {ℓ κ} : {A : Type ℓ} {B : Type κ} → Option A → (A → Option B) → Option B
none >>= f = none
some a >>= f = f a

-- What may stand between two numbers.
abbrev pub delim : ℕ → Bool
delim c = is_space c || (c == b'.' || (c == b'-' || c == b'>'))

-- `v & 0xff` of an int
abbrev pub low_byte : ℤ → ℕ
low_byte (pos n) = n % 256
low_byte (negsuc n) = 255 - n % 256

abbrev pub low_word : ℤ → ℕ
low_word (pos n) = n % 65536
low_word (negsuc n) = 65535 - n % 65536

unfoldable pub read_field : Text → Option (ℕ × Text)
read_field s = elim (from_chars (drop_while delim s)) [
  | none ↦ none
  | some (v, r) ↦ some (low_byte v, r)
]

-- The press and the latch of a latch code.
unfoldable pub src_of : ℕ → ℕ → ℕ → SrcAdr
src_of bus adr code =
    let press = if ltb 20 code then 2 else if ltb 10 code then 1 else 0 in
    let latch = if ltb 20 code then code - 20 else if ltb 10 code then code - 10 else code in
    record { res = 0; bus = bus % 8; press = press; latch = latch % 16; adr = adr % 64 }

unfoldable pub dst_of : ℕ → ℕ → ℕ → DstAdr
dst_of bus adr pio = record { pio = pio % 8; adr = adr % 256; bus = bus % 8; type = 0 }

unfoldable pub starts_decimal_digit : Text → Bool
starts_decimal_digit [] = false
starts_decimal_digit (c ∷ cs) = is_digit c

-- One of the two optional numbers: where there is none, the text after the white space.
unfoldable pub read_option : Text → Option ℤ × Text
read_option t =
    let s = drop_while is_space t in
    if starts_decimal_digit s
    then elim (from_chars s) [ none ↦ (none, s) | some (v, r) ↦ (some v, r) ]
    else (none, s)

-- Both, with their defaults; the second is only looked for behind the first.
unfoldable pub read_options : Text → ℤ × ℤ × Text
read_options t =
    let (first, r) = read_option t in
    elim first [
      | none ↦ (pos 0, pos on_press_retrigger, r)
      | some secs ↦
          let (second, r') = read_option r in
          elim second [ none ↦ (secs, pos on_press_retrigger, r') | some press ↦ (secs, press, r') ]
    ]

unfoldable pub starts_dark : Text → Bool
starts_dark (d ∷ a ∷ r ∷ k ∷ cs) = d == b'd' && (a == b'a' && (r == b'r' && k == b'k'))
starts_dark cs = false

-- All lights off takes no timing and no condition.
unfoldable pub plain_all_off : Switch → Switch
plain_all_off sw =
    if is_all_off sw.dst && (not (sw.secs == 0) || not (sw.cond == cond_none))
    then record sw { secs = 0; on_press = on_press_retrigger; cond = cond_none }
    else sw

unfoldable pub finish : SrcAdr → DstAdr → ℤ × ℤ × Text → Option Switch
finish src dst (secs, press, rest) =
    let dark = starts_dark (drop_while is_space rest) in
    if ltb_ℤ (pos 0xffff) secs || ltb_ℤ (pos on_press_off) press
    then none
    else some (
        plain_all_off (record {
          src = src;
          dst = dst;
          secs = low_word secs;
          on_press = low_byte press;
          cond = if dark then cond_dark else cond_none;
          disabled = false;
        }))

unfoldable pub parse_fields : Text → Option Switch
parse_fields buf = do
  (src_bus, r1) ← read_field buf
  (src_adr, r2) ← read_field r1
  (code, r3) ← read_field r2
  (dst_bus, r4) ← read_field r3
  (dst_adr, r5) ← read_field r4
  (pio, r6) ← read_field r5
  finish (src_of src_bus src_adr code) (dst_of dst_bus dst_adr pio) (read_options r6)

unfoldable pub parse_buf : Text → Option Switch
unfolding parse_fields
parse_buf buf = if ltb (length buf) 10 then none else parse_fields buf

-- How `list_text` writes the switch, before the ": " and the names.
unfoldable pub timing_text : Switch → Text
timing_text sw = if sw.secs == 0 then [] else b' ' ∷ (decimal sw.secs ++ b' ' ∷ decimal sw.on_press)

unfoldable pub cond_text : Switch → Text
cond_text sw = if sw.cond == cond_dark then codes " dark" else []

unfoldable pub address_text : Switch → Text → Text
address_text sw rest =
    decimal sw.src.bus
    ++ b'.'
      ∷ (decimal sw.src.adr
          ++ b'.'
            ∷ (decimal (latch_code sw.src)
                ++ (codes " -> "
                    ++ (decimal sw.dst.bus
                        ++ b'.' ∷ (decimal sw.dst.adr ++ b'.' ∷ (decimal sw.dst.pio ++ rest))))))

unfoldable pub line_text : Switch → Text → Text
line_text sw rest = address_text sw (timing_text sw ++ (cond_text sw ++ rest))
