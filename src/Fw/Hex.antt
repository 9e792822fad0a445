-- ===== src/Fw/Hex.antt =====
-- Intel HEX: `hex_byte`, `fw_parse_hex`, and the part of `fw_load` behind the opening of the file.
use in10dhost.Prelude.{
  ℕ, ◌+◌, ◌-◌, ◌*◌, ◌%◌, ◌^◌, List, [], ◌∷◌, ◌++◌, Bool, true, false, not, ◌||◌, Option, none, some,
  get_or, ◌==◌, if◌then◌else◌, ltb, length, Text, drop_end, take, drop,
}
use in10dhost.Numbers.{digit_of}
use in10dhost.Switches.Table.{split_lines}
use in10dhost.Fw.{grow}

-- FW_MAX_SIZE
abbrev pub fw_max_size : ℕ
fw_max_size = 256 * 1024

-- The texts of `err`, with the number of the line.
pub data HexError : Type 0 where
  no_record no_hex bad_length bad_sum bad_segment bad_linear : ℕ → HexError
  too_large unknown_type : ℕ → ℕ → HexError
  no_end no_data empty_file : HexError
  file_too_large : ℕ → HexError

unfoldable pub hex_byte : ℕ → ℕ → Option ℕ
hex_byte a c = elim (digit_of 16 a) [
  | none ↦ none
  | some h ↦ elim (digit_of 16 c) [ none ↦ none | some l ↦ some (16 * h + l) ]
]

-- The bytes of a record, two digits each.
unfoldable pub hex_bytes : Text → Option (List ℕ)
hex_bytes [] = some []
hex_bytes (a ∷ []) = none
hex_bytes (a ∷ c ∷ cs) =
    let rest = hex_bytes cs in
    elim (hex_byte a c) [
      | none ↦ none
      | some x ↦ elim rest [ none ↦ none | some xs ↦ some (x ∷ xs) ]
    ]

unfoldable pub sum : List ℕ → ℕ
sum [] = 0
sum (x ∷ xs) = (x + sum xs) % 256

pub record HexState : Type 0 where
  pub image : List ℕ
  pub base : ℕ
  pub ended : Bool

-- `resize` where it is too short, then `memcpy`.
unfoldable pub put : ℕ → List ℕ → List ℕ → List ℕ
put pos xs image =
    let big = grow (pos + length xs) image in take pos big ++ (xs ++ drop (pos + length xs) big)

pub data HexResult : Type 0 where
  go_on : HexState → HexResult
  stop : HexError → HexResult

-- Record type 0, data at an address.
unfoldable pub data_record : ℕ → ℕ → List ℕ → HexState → HexResult
data_record n pos xs st =
    if ltb fw_max_size pos || ltb (fw_max_size - pos) (length xs)
    then stop (too_large n pos)
    else go_on (record st { image = put pos xs st.image })

-- The switch over the record type. The length byte counts the data.
unfoldable pub hex_record : ℕ → List ℕ → HexState → HexResult
hex_record n bytes st =
    let len = get_or bytes 0 0 in
    let addr = 256 * get_or bytes 1 0 + get_or bytes 2 0 in
    let type = get_or bytes 3 0 in
    let xs = take len (drop 4 bytes) in
    let word = 256 * get_or xs 0 0 + get_or xs 1 0 in
    if type == 0
    then data_record n ((st.base + addr) % 2 ^ 32) xs st
    else if type == 1
    then go_on (record st { ended = true })
    else if type == 2
    then (if len == 2 then go_on (record st { base = word * 16 }) else stop (bad_segment n))
    else if type == 4
    then (if len == 2 then go_on (record st { base = word * 65536 }) else stop (bad_linear n))
    else if type == 3 || type == 5
    then go_on st
    else stop (unknown_type n type)

abbrev pub hex_trail : ℕ → Bool
hex_trail c = c == 13 || c == b' '

unfoldable pub checked_record : ℕ → List ℕ → HexState → HexResult
checked_record n bytes st =
    if not (length bytes == get_or bytes 0 0 + 5)
    then stop (bad_length n)
    else if not (sum bytes == 0)
    then stop (bad_sum n)
    else hex_record n bytes st

unfoldable pub hex_line : ℕ → Text → HexState → HexResult
hex_line n [] st = go_on st
hex_line n (c ∷ cs) st =
    if st.ended || (not (c == b':') || (ltb (length (c ∷ cs)) 11 || not (length cs % 2 == 0)))
    then stop (no_record n)
    else elim (hex_bytes cs) [ none ↦ stop (no_hex n) | some bytes ↦ checked_record n bytes st ]

-- What `getline` leaves out, an empty text behind the last line end, is skipped as an empty line.
unfoldable pub hex_lines : ℕ → List Text → HexState → HexResult
hex_lines n [] st = go_on st
hex_lines n (l ∷ ls) st = elim (hex_line n (drop_end hex_trail l) st) [
  | stop e ↦ stop e
  | go_on st' ↦ hex_lines (n + 1) ls st'
]

pub data FwImage : Type 0 where
  loaded : List ℕ → FwImage
  refused : HexError → FwImage

unfoldable pub is_nil : List ℕ → Bool
is_nil [] = true
is_nil (x ∷ xs) = false

unfoldable pub hex_done : HexState → FwImage
hex_done st =
    if not st.ended
    then refused no_end
    else if is_nil st.image
    then refused no_data
    else loaded st.image

unfoldable pub fw_parse_hex : Text → FwImage
fw_parse_hex text =
    elim (hex_lines 1 (split_lines [] text) (record { image = []; base = 0; ended = false })) [
      | stop e ↦ refused e
      | go_on st ↦ hex_done st
    ]

-- The file's bytes, once it was opened.
unfoldable pub fw_load : Text → FwImage
fw_load [] = refused empty_file
fw_load (c ∷ cs) =
    if c == b':'
    then fw_parse_hex (c ∷ cs)
    else if ltb fw_max_size (length (c ∷ cs))
    then refused (file_too_large (length (c ∷ cs)))
    else loaded (c ∷ cs)
