-- ===== src/Switches/Address.antt =====
-- include/switch_handler.h: the packed addresses of a switch's source latch and of its target pin.
use in10dhost.Prelude.{ℕ, ◌+◌, ◌*◌, ◌<◌, ◌≡◌, Bool, ◌&&◌, ◌==◌, arith, if◌then◌else◌}

-- `union s_adr`
pub record SrcAdr : Type 0 where
  pub res : ℕ
  pub bus : ℕ
  pub press : ℕ
  pub latch : ℕ
  pub adr : ℕ

-- `union pio`
pub record DstAdr : Type 0 where
  pub pio : ℕ
  pub adr : ℕ
  pub bus : ℕ
  pub type : ℕ

-- The 16-bit views, the first bit field lowest.
unfoldable pub src_data : SrcAdr → ℕ
src_data a = a.res + 2 * a.bus + 16 * a.press + 64 * a.latch + 1024 * a.adr

unfoldable pub dst_data : DstAdr → ℕ
dst_data a = a.pio + 8 * a.adr + 2048 * a.bus + 16384 * a.type

-- The widths of the bit fields.
pub record IsSrcAdr (a : SrcAdr) : Type 0 where
  pub res_bit : a.res < 2
  pub bus_bits : a.bus < 8
  pub press_bits : a.press < 4
  pub latch_bits : a.latch < 16
  pub adr_bits : a.adr < 64

pub record IsDstAdr (a : DstAdr) : Type 0 where
  pub pio_bits : a.pio < 8
  pub adr_bits : a.adr < 256
  pub bus_bits : a.bus < 8
  pub type_bits : a.type < 4

-- Two sources with the same 16 bits are the same, field by field.
pub src_data_injective : (a c : SrcAdr) → IsSrcAdr a → IsSrcAdr c → src_data a ≡ src_data c → a ≡ c
unfolding src_data
src_data_injective a c va vc h = ground arith

pub dst_data_injective : (a c : DstAdr) → IsDstAdr a → IsDstAdr c → dst_data a ≡ dst_data c → a ≡ c
unfolding dst_data
dst_data_injective a c va vc h = ground arith

pub src_data-lt : (a : SrcAdr) → IsSrcAdr a → src_data a < 65536
unfolding src_data
src_data-lt a v = omega arith

pub dst_data-lt : (a : DstAdr) → IsDstAdr a → dst_data a < 65536
unfolding dst_data
dst_data-lt a v = omega arith

-- Target 0.0.0 of the type of a ds2408: every light off.
unfoldable pub is_all_off : DstAdr → Bool
is_all_off d = d.type == 0 && (d.bus == 0 && (d.adr == 0 && d.pio == 0))

-- `struct _sw_tbl`
pub record Switch : Type 0 where
  pub src : SrcAdr
  pub dst : DstAdr
  pub secs : ℕ
  pub on_press : ℕ
  pub cond : ℕ
  pub disabled : Bool

abbrev pub on_press_retrigger : ℕ
on_press_retrigger = 0

abbrev pub on_press_off : ℕ
on_press_off = 1

abbrev pub cond_none : ℕ
cond_none = 0

abbrev pub cond_dark : ℕ
cond_dark = 1

-- The switch that a line of the table means, `sw.src.data == o.src.data && sw.dst.data == o.dst.data`.
unfoldable pub same_switch : Switch → Switch → Bool
same_switch x y = src_data x.src == src_data y.src && dst_data x.dst == dst_data y.dst

-- The latch as it is written: 1..8, 11..18 for a long press, 21..28 for one that started.
unfoldable pub latch_code : SrcAdr → ℕ
latch_code a = if a.press == 1 then a.latch + 10 else if a.press == 2 then a.latch + 20 else a.latch
