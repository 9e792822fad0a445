-- ===== src/Ds2408/State.antt =====
-- The fields of a `ds2408`, and the questions about its pins that need no bus.
use in10dhost.Prelude.{
  ℕ, ◌+◌, ◌<◌, ◌≡◌, Bool, true, false, ◌||◌, not, List, [], ◌∷◌, ◌++◌, Text, length, get_or, ltb,
  ◌==◌, if◌then◌else◌, bit_and, ◌^◌, codes,
}
use in10dhost.Prelude.Bits.{mask_of}
use in10dhost.Numbers.Decimal.{decimal}
use in10dhost.Pin.{Pin, PinRole, no_role}

-- `data[10]`: the registers as they are read.
pub record Regs : Type 0 where
  pub ls : ℕ
  pub out : ℕ
  pub latch : ℕ
  pub search_sel : ℕ
  pub search_pol : ℕ
  pub stat : ℕ
  pub time : ℕ
  pub ext : ℕ
  pub crc_lo : ℕ
  pub crc_hi : ℕ

-- An entry of the event that `pio_set` hands to `notify_change`.
pub record PinChange : Type 0 where
  pub pin : ℕ
  pub on : Bool
  pub name : Text
  pub role : PinRole
  pub room : Text

pub record Change : Type 0 where
  pub pio : ℕ
  pub changed : List PinChange

pub record Dev : Type 0 where
  pub bus : ℕ
  pub addr : List ℕ
  pub cfg : List ℕ
  pub pins : List Pin
  pub regs : Regs
  pub threshold : ℕ
  pub brightness : ℕ
  pub ext_ddr : ℕ
  pub ext_port : ℕ
  pub ext_known : Bool
  pub latched : ℕ
  pub last_latch : ℕ
  pub out_known : Bool
  pub wdt_pending : Bool
  pub wdt_out : ℕ
  pub wdt_out_known : Bool
  pub wdt_count : ℕ
  pub crc_errors : ℕ
  pub fw_busy : Bool
  pub alarm : Bool
  -- the changes that `notify_change` was called with, the newest last
  pub notified : List Change

abbrev pub no_pin : Pin
no_pin = record { name = []; role = no_role; room = []; level = 0 }

abbrev pub cfg_pin_id : ℕ
cfg_pin_id = 11

abbrev pub cfg_out_pwm : ℕ
cfg_out_pwm = 0x23

abbrev pub cfg_out_mask : ℕ
cfg_out_mask = 0x20

abbrev pub cfg_of : Dev → ℕ → ℕ
cfg_of d i = get_or d.cfg (cfg_pin_id + i) 0

abbrev pub pin_of : Dev → ℕ → Pin
pin_of d i = get_or d.pins i no_pin

abbrev pub is_pwm : Dev → ℕ → Bool
is_pwm d i = cfg_of d i == cfg_out_pwm

-- The bits of the PWM pins.
unfoldable pub pwm_mask : Dev → ℕ
pwm_mask d = mask_of (is_pwm d)

unfoldable pub pin_is_on : Dev → ℕ → Bool
pin_is_on d pio =
    if ltb 7 pio
    then false
    else if is_pwm d pio
    then ltb 0 (pin_of d pio).level
    else bit_and d.regs.out (2 ^ pio) == 0

unfoldable pub pin_is_output : Dev → ℕ → Bool
pin_is_output d pio =
    if ltb 7 pio
    then false
    else if cfg_of d pio == 0xff || cfg_of d pio == 0
    then false
    else not (bit_and (cfg_of d pio) cfg_out_mask == 0)

unfoldable pub pio_mask : Dev → ℕ
pio_mask d = mask_of (pin_is_on d)

no_name : Text → Bool
no_name [] = true
no_name (c ∷ cs) = false

unfoldable pub pin_label : Dev → ℕ → Text
unfolding no_name
pin_label d pio =
    if ltb 7 pio
    then codes "?"
    else if no_name (pin_of d pio).name
    then codes "PIO." ++ decimal pio
    else (pin_of d pio).name

-- `role(pio)` and `room(pio)`: a pin number that no pin has gives the defaults.
unfoldable pub role : Dev → ℕ → PinRole
role d pio = if ltb 7 pio then no_role else (pin_of d pio).role

unfoldable pub room : Dev → ℕ → Text
room d pio = if ltb 7 pio then [] else (pin_of d pio).room

-- The sizes of the C arrays, and the ranges of their bytes.
pub record IsDev (d : Dev) : Type 0 where
  pub eight_pins : length d.pins ≡ 8
  pub cfg_size : length d.cfg ≡ 26
  pub out_byte : d.regs.out < 256
