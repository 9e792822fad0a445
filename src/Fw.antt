-- ===== src/Fw.antt =====
-- src/fw_update.cpp, include/fw_update.h: the image of an owSlave's firmware, and writing it page by
-- page through the bootloader. Error texts are values, with what they tell.
pub mod Hex
pub mod Size
pub mod Write
pub mod Verified
pub mod Update
mod Tests
use in10dhost.Prelude.{
  ℕ, zero, suc, ◌+◌, ◌-◌, ◌*◌, ◌%◌, List, [], ◌∷◌, ◌++◌, Bool, true, false, not, ◌&&◌, ◌||◌, Option,
  none, some, get_or, ◌==◌, if◌then◌else◌, bit_and, ltb,
}

-- `resize(n, 0xff)` of a vector that is no longer: bytes of 0xff behind.
unfoldable pub grow : ℕ → List ℕ → List ℕ
grow zero xs = xs
grow (suc n) [] = 0xff ∷ grow n []
grow (suc n) (x ∷ xs) = x ∷ grow n xs

pub record BlInfo : Type 0 where
  pub version : ℕ
  pub page_size : ℕ
  pub app_size : ℕ
  pub signature : List ℕ
  pub app_valid : Bool
  pub last_result : ℕ

-- The 11 bytes of the answer of BL_CMD_INFO.
unfoldable pub bl_info_parse : List ℕ → Option BlInfo
bl_info_parse raw =
    let at = λ (i : ℕ). get_or raw i 0 in
    let size = if at 3 == 0 then 256 else at 3 in
    if not (at 0 == b'B') || not (at 1 == b'L')
    then none
    else if not (bit_and size (size - 1) == 0)
    then none
    else some (record {
      version = at 2;
      page_size = size;
      app_size = at 4 + 256 * at 5;
      signature = at 6 ∷ at 7 ∷ at 8 ∷ [];
      app_valid = not (at 9 == 0);
      last_result = at 10;
    })
