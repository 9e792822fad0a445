-- ===== src/Ds2408/Settings.antt =====
-- The leaves of a ds2408 that configure it: cfg, the pins' names, rooms, roles and functions, the
-- thresholds and the extended port, and the counters that can be read.
use in10dhost.Prelude.{
  ℕ, ◌+◌, ◌-◌, ◌*◌, ◌%◌, Bool, ◌&&◌, ◌||◌, not, Option, none, some, List, [], ◌∷◌, ◌++◌, Text,
  codes, length, ltb, leb, ◌==◌, if◌then◌else◌, all, is_space, is_xdigit, drop_end, take, set,
  c_str, get_or, bit_and,
}
use in10dhost.Prelude.Int.{pos, negsuc}
use in10dhost.Numbers.{ok, err, read_num}
use in10dhost.Numbers.Hexadecimal.{hex_upper, hex_lower, hex_short}
use in10dhost.Parse.{parse_num}
use in10dhost.Pin.{Pin, pin_role_str, pin_role_parse, room_parse}
use in10dhost.Switches.Line.{low_byte}
use in10dhost.Switches.Table.{einval, enoent, eagain}
use in10dhost.FsTable.{Reply, text, took, error}
use in10dhost.Bus.{Bus}
use in10dhost.Ds2408.State.{Dev, cfg_pin_id, cfg_of, pin_of, pin_label}
use in10dhost.Ds2408.Wire.{threshold_set, brightness_set, extport_set}
use in10dhost.Ds2408.Config.{cfg_size, cfg_read, cfg_write}

-- PIN_NAME_MAX
abbrev pub pin_name_max : ℕ
pin_name_max = 20

-- The bytes of the configuration that fit the buffer.
unfoldable pub cfg_text : ℕ → ℕ → List ℕ → Text
cfg_text size i [] = []
cfg_text size i (x ∷ xs) =
    let rest = cfg_text size (i + 1) xs in
    if size == 0 || ltb ((i + 1) * 3) (size - 1) then hex_upper x ++ (b' ' ∷ rest) else []

-- The words of a text, as `>>` reads them.
abbrev pub flush : Text → List Text → List Text
flush [] ws = ws
flush (c ∷ cs) ws = (c ∷ cs) ∷ ws

-- What the text begins with up to a blank, and the words behind it.
unfoldable pub split_words : Text → Text × List Text
split_words [] = ([], [])
split_words (c ∷ cs) =
    let (w, ws) = split_words cs in if is_space c then ([], flush w ws) else (c ∷ w, ws)

abbrev pub words : Text → List Text
words s = let (w, ws) = split_words s in flush w ws

-- `stoul(tok, nullptr, 16)` of one or two hex digits.
abbrev pub hex_value : Text → ℕ
hex_value tok = (read_num 16 0 tok).0 % 256

-- The bytes that the words stand for, at most `most` of them, `len` having been read.
unfoldable pub cfg_bytes : ℕ → List Text → ℕ → Option (List ℕ)
cfg_bytes most [] len = some []
cfg_bytes most (tok ∷ toks) len =
    let rest = cfg_bytes most toks (len + 1) in
    if len == most || ltb 2 (length tok) || not (all is_xdigit tok)
    then none
    else elim rest [ none ↦ none | some xs ↦ some (hex_value tok ∷ xs) ]

-- Without the line ends and NULs behind it.
abbrev pub ends_input : ℕ → Bool
ends_input c = c == 10 || c == 13 || c == 0

abbrev pub pin_input : Text → Text
pin_input s = drop_end ends_input s

-- What `snprintf` puts into a buffer of that size, of a text without a NUL.
abbrev pub fitted : ℕ → Text → Text
fitted size s = take (size - 1) s

set_pin : Dev → ℕ → Pin → Dev
set_pin d i p = record d { pins = set d.pins i p }

unfoldable pub r_pin_name : ℕ → ℕ → Dev → Reply
r_pin_name size i d = text (fitted size (c_str (pin_label d i)))

unfoldable pub w_pin_name : Text → ℕ → Dev → Reply × Dev
unfolding set_pin
w_pin_name buf i d =
    let s = pin_input buf in
    if ltb pin_name_max (length s)
    then (error einval, d)
    else (took (length buf), set_pin d i (record (pin_of d i) { name = s }))

unfoldable pub r_pin_role : ℕ → ℕ → Dev → Reply
r_pin_role size i d = text (fitted size (pin_role_str (pin_of d i).role))

unfoldable pub w_pin_role : Text → ℕ → Dev → Reply × Dev
unfolding set_pin
w_pin_role buf i d = elim (pin_role_parse (pin_input buf)) [
  | none ↦ (error einval, d)
  | some r ↦ (took (length buf), set_pin d i (record (pin_of d i) { role = r }))
]

unfoldable pub r_pin_room : ℕ → ℕ → Dev → Reply
r_pin_room size i d = text (fitted size (c_str (pin_of d i).room))

unfoldable pub w_pin_room : Text → ℕ → Dev → Reply × Dev
unfolding set_pin
w_pin_room buf i d = elim (room_parse (pin_input buf)) [
  | none ↦ (error einval, d)
  | some r ↦
      if ltb pin_name_max (length r)
      then (error einval, d)
      else (took (length buf), set_pin d i (record (pin_of d i) { room = r }))
]

-- The name of a pin's function, or its number.
unfoldable pub func_text : ℕ → Text
func_text x =
    if x == 0x21
    then codes "OUT"
    else if x == 0x23
    then codes "PWM"
    else if x == 0x10
    then codes "BTN"
    else if x == 0x11
    then codes "SW"
    else if x == 0x05
    then codes "PASS"
    else if x == 0x06
    then codes "INV"
    else if x == 0x07
    then codes "INV_PU"
    else if x == 0x02
    then codes "ACT_HIGH"
    else hex_short x

unfoldable pub r_pin_func : ℕ → Dev → Reply
r_pin_func i d = text (func_text (cfg_of d i))

unfoldable pub has_feature : ℕ → ℕ → Dev → Bool
has_feature min_ver feat d =
    leb min_ver (256 * get_or d.cfg 21 0 + get_or d.cfg 22 0)
    && bit_and (get_or d.cfg 19 0) feat == 0

unfoldable pub vis_extport : Dev → Bool
vis_extport d = has_feature 0x0109 0x04 d

unfoldable pub r_extport : Dev → Reply
r_extport d =
    if vis_extport d
    then text (hex_lower d.ext_ddr ++ (b' ' ∷ hex_lower d.ext_port))
    else error enoent

module _ (long_max : ℕ) where
  unfoldable pub w_pin_func : Text → ℕ → Dev → Reply × Dev
  w_pin_func buf i d = elim (parse_num long_max buf) [
    | err e ↦ (error einval, d)
    | ok v ↦ (took (length buf), record d { cfg = set d.cfg (cfg_pin_id + i) (low_byte v) })
  ]

  byte_word : Text → Option ℕ
  byte_word tok = elim (parse_num long_max tok) [
    | err e ↦ none
    | ok (pos n) ↦ if ltb 255 n then none else some n
    | ok (negsuc n) ↦ none
  ]

  -- "<ddr> <port>"
  unfoldable pub extport_values : List Text → Option (ℕ × ℕ)
  unfolding byte_word
  extport_values (x ∷ y ∷ []) = elim (byte_word x) [
    | none ↦ none
    | some ddr ↦ elim (byte_word y) [ none ↦ none | some port ↦ some (ddr, port) ]
  ]
  extport_values ws = none

  module _ (b : Bus) where
    open b use {St}

    -- A setting that is sent: true is -EAGAIN.
    sent : Text → Bool × Dev × St → Reply × (Dev × St)
    sent buf (failed, d, s) = (if failed then error eagain else took (length buf), (d, s))

    unfoldable pub w_threshold : Text → Dev × St → Reply × (Dev × St)
    unfolding sent
    w_threshold buf (d, s) = elim (parse_num long_max buf) [
      | err e ↦ (error einval, (d, s))
      | ok v ↦ sent buf (threshold_set b d (low_byte v) s)
    ]

    unfoldable pub w_brightness : Text → Dev × St → Reply × (Dev × St)
    unfolding sent
    w_brightness buf (d, s) = elim (parse_num long_max buf) [
      | err e ↦ (error einval, (d, s))
      | ok v ↦ sent buf (brightness_set b d (low_byte v) s)
    ]

    unfoldable pub w_extport : Text → Dev × St → Reply × (Dev × St)
    unfolding sent
    w_extport buf (d, s) =
        let done : Reply × (Dev × St) = elim (extport_values (words buf)) [
          | none ↦ (error einval, (d, s))
          | some (ddr, port) ↦ sent buf (extport_set b d ddr port s)
        ] in
        if vis_extport d then done else (error enoent, (d, s))

module _ (b : Bus) where
  open b use {St}

  unfoldable pub r_cfg : ℕ → Bool → Dev × St → Reply × (Dev × St)
  r_cfg size uncached (d, s) =
      let (got, d1, s1) = cfg_read b d s in
      if not uncached
      then (text (cfg_text size 0 d.cfg), (d, s))
      else if got
      then (text (cfg_text size 0 d1.cfg), (d1, s1))
      else (error eagain, (d1, s1))

  unfoldable pub w_cfg : Text → Dev × St → Reply × (Dev × St)
  w_cfg buf (d, s) = elim (cfg_bytes cfg_size (words buf) 0) [
    | none ↦ (error einval, (d, s))
    | some [] ↦ (error einval, (d, s))
    | some (x ∷ xs) ↦
        let (wrote, d1, s1) = cfg_write b (x ∷ xs) d s in
        (if wrote then took (length buf) else error eagain, (d1, s1))
  ]
