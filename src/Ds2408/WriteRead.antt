-- ===== src/Ds2408/WriteRead.antt =====
-- PIO.ALL and PIO.BYTE: what is written, and what is read then.
use in10dhost.Prelude.{
  ℕ, ◌≤◌, ◌<◌, Bool, true, false, ◌||◌, not, none, some, List, [], ◌∷◌, ◌++◌, Text, ltb, ◌==◌, ◌≡◌,
  refl, arith, inl, inr, ◌⊎◌, is_space, is_digit, all, all_imp, all-append, drop_end,
  drop_end-append_all, drop_end_none, length, ◌∙◌, ap,
}
use in10dhost.Prelude.Find.{cut}
use in10dhost.Prelude.Bits.{first8}
use in10dhost.Numbers.{int_max}
use in10dhost.Numbers.Decimal.{decimal, all_digits}
use in10dhost.Bus.{Bus}
use in10dhost.Ds2408.State.{Dev, IsDev}
use in10dhost.FsTable.{took, text}
use in10dhost.Ds2408.Formats.{fmt_bits_of, fmt_all, fmt_bits, until_nul, trimmed, idx_all, idx_byte}
use in10dhost.Ds2408.Bitfield.{parse_all-fmt_all, parse_byte-decimal}
use in10dhost.Ds2408.Leaves.{parse_bits, w_pio, w_pio_all, r_pio, refresh}
use in10dhost.Ds2408.Masks.{Confirms, pio_mask-set}
use in10dhost.Ds2408.Switch.{pio_mask_set}

abbrev not_nul : ℕ → Bool
not_nul c = not (c == 0)

abbrev shown : ℕ → Bool
shown c = is_digit c || c == b','

shown-bits : (is : List ℕ) (bits : ℕ) → all shown (fmt_bits_of is bits) ≡ true
unfolding fmt_bits_of all
shown-bits [] bits = refl
shown-bits (i ∷ []) bits = ground arith
shown-bits (i ∷ j ∷ is) bits = ground (arith, shown-bits (j ∷ is) bits)

cut-none : (s : Text) → all not_nul s ≡ true → cut 0 s ≡ none
unfolding cut all
cut-none [] h = refl
cut-none (c ∷ cs) h = ground (arith, cut-none cs)

until_nul_none : (s : Text) → all not_nul s ≡ true → until_nul s ≡ s
until_nul_none s h = rw (cut-none s h, until_nul) refl

trimmed-shown :
    (s post : Text) → all shown s ≡ true → all is_space post ≡ true → trimmed (s ++ post) ≡ s
trimmed-shown s post hs hp =
    let no_nul : all not_nul (s ++ post) ≡ true = ground (
      arith,
      all-append not_nul s post,
      all_imp shown not_nul s (λ c e. ground arith) hs,
      all_imp is_space not_nul post (λ c e. ground arith) hp,
    ) in
    ap (drop_end is_space) (until_nul_none (s ++ post) no_nul)
    ∙ (drop_end-append_all is_space s post hp
        ∙ drop_end_none is_space s (all_imp shown _ s (λ c e. ground arith) hs))

abbrev pub IsField : ℕ → Type 0
IsField idx = (idx ≡ idx_all) ⊎ (idx ≡ idx_byte)

parse_field :
    (l idx x : ℕ) (post : Text) (b : Bus)
    → int_max ≤ l
    → IsField idx
    → x < 256
    → all is_space post ≡ true
    → parse_bits l b (fmt_bits idx x ++ post) idx ≡ some x
unfolding parse_bits fmt_bits
parse_field l idx x post b hl (inl e) hx hp =
    rw (e, trimmed-shown (fmt_all x) post (shown-bits first8 x) hp) (parse_all-fmt_all x hx)
parse_field l idx x post b hl (inr e) hx hp =
    rw
      (
        e,
        trimmed-shown (decimal x) post
            (all_imp is_digit shown (decimal x) (λ c h. ground arith) (all_digits x)) hp,
      )
      (parse_byte-decimal l x hl hx)

w_field :
    (l idx x : ℕ) (post : Text) (b : Bus) (d : Dev) (s : b.St)
    → int_max ≤ l
    → IsField idx
    → x < 256
    → all is_space post ≡ true
    → w_pio l b (fmt_bits idx x ++ post) idx (d, s)
      ≡ (took (length (fmt_bits idx x ++ post)), pio_mask_set b d x s)
unfolding w_pio w_pio_all
w_field l idx x post b d s hl hi hx hp =
    let field : ltb idx idx_all ≡ false = elim hi [
      | inl e ↦ ground (arith, e)
      | inr e ↦ ground (arith, e)
    ] in
    rw (field, w_pio_all, parse_field l idx x post b hl hi hx hp) refl

-- A byte that is written to PIO.ALL or PIO.BYTE as these print it, with white space behind it or
-- not, takes its whole size, and the same leaf reads that byte then. The device has its tables'
-- sizes and is not being updated, the bus confirms its transfers, and a long is at least as large
-- as an int.
pub pio_field_written :
    (l idx x : ℕ) (post : Text) (b : Bus) (d : Dev) (s : b.St)
    → int_max ≤ l
    → IsField idx
    → x < 256
    → all is_space post ≡ true
    → Confirms b
    → IsDev d
    → d.fw_busy ≡ false
    → let out = w_pio l b (fmt_bits idx x ++ post) idx (d, s) in
      (out.0 ≡ took (length (fmt_bits idx x ++ post)))
      × ((r_pio l b false idx out.1).0 ≡ text (fmt_bits idx x))
unfolding r_pio refresh
pio_field_written l idx x post b d s hl hi hx hp c v free =
    let field : ltb idx idx_all ≡ false = elim hi [
      | inl e ↦ ground (arith, e)
      | inr e ↦ ground (arith, e)
    ] in
    rw (w_field l idx x post b d s hl hi hx hp)
      (refl, rw (field, pio_mask-set b d x s c v free hx) refl)
