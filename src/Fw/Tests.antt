-- ===== src/Fw/Tests.antt =====
-- Updates of a device with pages of two bytes, and the theorems on them.
use in10dhost.Prelude.{
  ℕ, ◌+◌, ◌-◌, ◌≡◌, refl, [], ◌∷◌, true, ◌&&◌, none, get_or, ◌==◌, leb, ltb, if◌then◌else◌, length,
  arith, same, codes, Text, drop_end,
}
use in10dhost.Prelude.Int.{pos}
use in10dhost.Numbers.{digit_of}
use in10dhost.Switches.Table.{split_lines}
use in10dhost.Fw.{BlInfo, grow}
use in10dhost.Fw.Hex.{
  fw_load, loaded, fw_parse_hex, hex_lines, hex_line, hex_bytes, hex_byte, checked_record,
  hex_record, data_record, sum, put, hex_done, is_nil,
}
use in10dhost.Fw.Write.{
  FwLink, fw_flash, page_write, page_tries, is_code, flash_image, flash_pages, is_negative,
  all_erased,
}
use in10dhost.Fw.Verified.{IsTrue, slice}
use in10dhost.Fw.Update.{fw_flash-ok, fw_flash-broken}

abbrev small : BlInfo
small = record {
  version = 2;
  page_size = 2;
  app_size = 8;
  signature = 0x1e ∷ 0x93 ∷ 0x0b ∷ [];
  app_valid = true;
  last_result = 0;
}

-- The state is the flash. The page at `bad` is refused.
abbrev device : ℕ → FwLink
device bad = record {
  St = ℕ → ℕ;
  info = λ f. ((pos 0, small), f);
  write_page = λ a xs f. if a == bad then (pos 1, f) else (
    pos 0xAA,
    λ j. if leb a j && ltb j (a + length xs) then get_or xs (j - a) 0xff else f j,
  );
  read_page = λ a n f. ((pos 0, slice f a n), f);
}

abbrev flash_of : (ℕ → ℕ) → ℕ → ℕ
flash_of f j = f j

device-IsTrue : (bad : ℕ) → IsTrue (device bad) flash_of
device-IsTrue bad = record {
  read_true = λ a n s h. refl;
  read_keeps = λ a n j s. refl;
  write_local = λ a j xs s h. ground arith;
}

abbrev zeros : ℕ → ℕ
zeros j = 0

three_bytes : (fw_flash (device 100) (1 ∷ 2 ∷ 3 ∷ []) zeros).0 ≡ none
unfolding fw_flash flash_image flash_pages page_write page_tries is_code is_negative all_erased same
    slice grow
three_bytes = refl

-- Three bytes are two pages.
fw_flash-ok_example : (fw_flash (device 100) (1 ∷ 2 ∷ 3 ∷ []) zeros).2 2 ≡ 3
fw_flash-ok_example =
    fw_flash-ok (device 100) flash_of (device-IsTrue 100) (1 ∷ 2 ∷ 3 ∷ []) zeros 2 (omega arith)
      (omega arith) (omega arith) three_bytes

one_done : (fw_flash (device 2) (1 ∷ 2 ∷ 3 ∷ []) zeros).1 ≡ 1
unfolding fw_flash flash_image flash_pages page_write page_tries is_code is_negative all_erased same
    slice grow
one_done = refl

-- The second page is refused after page 0 was erased.
fw_flash-broken_example : (fw_flash (device 2) (1 ∷ 2 ∷ 3 ∷ []) zeros).2 1 ≡ 0xff
fw_flash-broken_example =
    fw_flash-broken (device 2) flash_of (device-IsTrue 2) (1 ∷ 2 ∷ 3 ∷ []) zeros 1 (omega arith)
      (omega arith) (omega arith) (omega (arith, one_done)) (omega (arith, one_done))

abbrev one_byte : Text
one_byte = codes ":0100000041BE\r\n:00000001FF\n"

hex_file : fw_load one_byte ≡ loaded (0x41 ∷ [])
unfolding fw_load fw_parse_hex hex_lines hex_line hex_bytes hex_byte checked_record hex_record
    data_record sum put grow hex_done is_nil digit_of split_lines drop_end
hex_file = refl
