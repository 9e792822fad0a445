-- ===== src/Crc.antt =====
-- The checksums of the 1-Wire bus: `DS2482::crc16` and `check_crc16` of src/ds2482.cpp.
use in10dhost.Prelude.{
  ℕ, ◌-◌, ◌*◌, ◌/◌, ◌%◌, Bool, ◌&&◌, List, [], ◌∷◌, get_or, ◌==◌, if◌then◌else◌, bit_and, bit_xor,
}

abbrev pub odd_parity : List ℕ
odd_parity = 0 ∷ 1 ∷ 1 ∷ 0 ∷ 1 ∷ 0 ∷ 0 ∷ 1 ∷ 1 ∷ 0 ∷ 0 ∷ 1 ∷ 0 ∷ 1 ∷ 1 ∷ 0 ∷ []

-- One byte of `crc16`, in 16 bits.
unfoldable pub crc16_byte : ℕ → ℕ → ℕ
crc16_byte crc x =
    let c = bit_and (bit_xor x crc) 0xff in
    let crc1 = crc / 256 in
    let odd = bit_xor (get_or odd_parity (bit_and c 0x0f) 0) (get_or odd_parity (c / 16) 0) in
    let crc2 = if odd == 0 then crc1 else bit_xor crc1 0xC001 in
    let c6 = c * 64 % 65536 in let c7 = c6 * 2 % 65536 in bit_xor (bit_xor crc2 c6) c7

unfoldable pub crc16 : List ℕ → ℕ → ℕ
unfolding crc16_byte
crc16 [] crc = crc
crc16 (x ∷ xs) crc = crc16 xs (crc16_byte crc x)

-- The two bytes are the complement of the checksum, the lower one first.
unfoldable pub check_crc16 : List ℕ → ℕ → ℕ → ℕ → Bool
unfolding crc16
check_crc16 input lo hi crc =
    let inv = 0xffff - crc16 input crc in bit_and inv 0xff == lo && inv / 256 == hi
