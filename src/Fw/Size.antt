-- ===== src/Fw/Size.antt =====
-- How large an image can become that is loaded.
use in10dhost.Prelude.{
  ℕ, zero, suc, ◌+◌, ◌-◌, ◌*◌, ◌≤◌, ◌≡◌, List, [], ◌∷◌, ◌++◌, false, get_or, length, Text, drop_end,
  arith, inl, inr, take, drop, length-take, length-drop, length-append, Option-cases, ◌%◌, ◌^◌,
}
use in10dhost.Switches.Table.{split_lines}
use in10dhost.Fw.{grow}
use in10dhost.Fw.Hex.{
  fw_max_size, HexState, HexResult, go_on, stop, data_record, hex_record, checked_record, hex_line,
  hex_lines, hex_trail, hex_bytes, put, loaded, refused, hex_done, fw_parse_hex, fw_load, is_nil,
}

length-grow :
    (n : ℕ) (xs : List ℕ)
    → (length xs ≤ length (grow n xs))
      × (n ≤ length (grow n xs))
      × (length (grow n xs) ≤ length xs + (n - length xs))
unfolding grow
length-grow zero xs = omega arith
length-grow (suc n) [] = let (p, q, r) = length-grow n [] in (omega arith, omega arith, omega arith)
length-grow (suc n) (x ∷ xs) =
    let (p, q, r) = length-grow n xs in (omega arith, omega arith, omega arith)

-- Data that ends within the size leaves an image within it.
length-put :
    (m pos : ℕ) (xs image : List ℕ)
    → pos + length xs ≤ m
    → length image ≤ m
    → length (put pos xs image) ≤ m
unfolding put
length-put m pos xs image h k =
    let big : List ℕ = grow (pos + length xs) image in
    let (p, q, r) = length-grow (pos + length xs) image in
    omega (
      arith,
      length-append (take pos big) (xs ++ drop (pos + length xs) big),
      length-append xs (drop (pos + length xs) big),
      length-take pos big,
      length-drop (pos + length xs) big,
    )

-- A result that goes on has an image within the size.
abbrev Fits : HexResult → Type 0
Fits (go_on st) = length st.image ≤ fw_max_size
Fits (stop e) = Unit {0}

data_record-Fits :
    (n pos : ℕ) (xs : List ℕ) (st : HexState)
    → length st.image ≤ fw_max_size
    → Fits (data_record n pos xs st)
unfolding data_record
data_record-Fits n pos xs st h = ground (arith, length-put fw_max_size pos xs st.image)

hex_record-Fits :
    (n : ℕ) (bytes : List ℕ) (st : HexState)
    → length st.image ≤ fw_max_size
    → Fits (hex_record n bytes st)
unfolding hex_record
hex_record-Fits n bytes st h = ground (
  arith,
  h,
  data_record-Fits n ((st.base + (256 * get_or bytes 1 0 + get_or bytes 2 0)) % 2 ^ 32)
      (take (get_or bytes 0 0) (drop 4 bytes)) st h,
)

checked_record-Fits :
    (n : ℕ) (bytes : List ℕ) (st : HexState)
    → length st.image ≤ fw_max_size
    → Fits (checked_record n bytes st)
unfolding checked_record
checked_record-Fits n bytes st h = ground (arith, hex_record-Fits n bytes st h)

hex_line-Fits :
    (n : ℕ) (l : Text) (st : HexState) → length st.image ≤ fw_max_size → Fits (hex_line n l st)
unfolding hex_line
hex_line-Fits n [] st h = h
hex_line-Fits n (c ∷ cs) st h = elim (Option-cases (hex_bytes cs)) [
  | inl e ↦ ground (arith, e)
  | inr (bytes, e) ↦ ground (arith, e, checked_record-Fits n bytes st h)
]

hex_lines-Fits :
    (n : ℕ) (ls : List Text) (st : HexState)
    → length st.image ≤ fw_max_size
    → Fits (hex_lines n ls st)
unfolding hex_lines
hex_lines-Fits n [] st h = h
hex_lines-Fits n (l ∷ ls) st h =
    go (hex_line n (drop_end hex_trail l) st) (hex_line-Fits n (drop_end hex_trail l) st h)
      (λ st' v. hex_lines-Fits (n + 1) ls st' v)
  where
    go :
        (r : HexResult)
        → Fits r
        → ((st' : HexState) → length st'.image ≤ fw_max_size → Fits (hex_lines (n + 1) ls st'))
        → Fits (elim r [ stop e ↦ stop e | go_on st' ↦ hex_lines (n + 1) ls st' ])
    go (stop e) v rec = tt
    go (go_on st') v rec = rec st' v

no_bytes : (xs : List ℕ) → is_nil xs ≡ false → 1 ≤ length xs
unfolding is_nil
no_bytes [] h = cc
no_bytes (x ∷ xs) h = omega arith

hex_done-size :
    (st : HexState) (image : List ℕ)
    → length st.image ≤ fw_max_size
    → hex_done st ≡ loaded image
    → (1 ≤ length image) × (length image ≤ fw_max_size)
unfolding hex_done
hex_done-size st image v h = ground (arith, no_bytes st.image)

lines_done-size :
    (r : HexResult) (image : List ℕ)
    → Fits r
    → elim r [ stop e ↦ refused e | go_on st ↦ hex_done st ] ≡ loaded image
    → (1 ≤ length image) × (length image ≤ fw_max_size)
lines_done-size (stop e) image v h = cc
lines_done-size (go_on st) image v h = hex_done-size st image v h

fw_parse_hex-size :
    (text : Text) (image : List ℕ)
    → fw_parse_hex text ≡ loaded image
    → (1 ≤ length image) × (length image ≤ fw_max_size)
unfolding fw_parse_hex
fw_parse_hex-size text image h =
    lines_done-size _ image
      (hex_lines-Fits 1 (split_lines [] text) (record { image = []; base = 0; ended = false })
        (omega arith))
      h

-- An image that `fw_load` gives, from an Intel HEX file or a raw one, has one byte at least and
-- 256 KB at most.
pub fw_load-size :
    (text : Text) (image : List ℕ)
    → fw_load text ≡ loaded image
    → (1 ≤ length image) × (length image ≤ fw_max_size)
unfolding fw_load
fw_load-size [] image h = cc
fw_load-size (c ∷ cs) image h = ground (arith, fw_parse_hex-size (c ∷ cs) image)
