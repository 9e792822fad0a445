-- ===== src/Fw/Write.antt =====
-- `page_write` and `fw_flash`, on a device in its bootloader, `FwLink` of include/fw_update.h.
use in10dhost.Prelude.{
  ℕ, zero, suc, ◌+◌, ◌-◌, ◌*◌, ◌/◌, ◌%◌, List, [], ◌∷◌, Bool, true, false, not, ◌&&◌, ◌||◌, Option,
  none, some, ◌==◌, if◌then◌else◌, length, take, drop, replicate, ltb, same,
}
use in10dhost.Prelude.Int.{ℤ, pos, negsuc}
use in10dhost.Fw.{BlInfo, grow}

-- `St` is the link with the device behind it. A read that fails gives no bytes of use.
pub record FwLink : Type 1 where
  pub St : Type 0
  pub info : St → (ℤ × BlInfo) × St
  pub write_page : ℕ → List ℕ → St → ℤ × St
  pub read_page : ℕ → ℕ → St → (ℤ × List ℕ) × St

-- The texts of `err`: the page's address, and what the last attempt gave.
pub data FwError : Type 0 where
  no_answer : ℤ → FwError
  image_size : ℕ → ℕ → FwError
  no_vector : FwError
  page_refused : ℕ → FwError
  page_code : ℕ → ℤ → FwError

abbrev pub bl_ok : ℕ
bl_ok = 0xAA

abbrev pub bl_err_addr : ℕ
bl_err_addr = 1

abbrev pub bl_err_verify : ℕ
bl_err_verify = 2

unfoldable pub is_code : ℤ → ℕ → Bool
is_code (pos n) k = n == k
is_code (negsuc n) k = false

unfoldable pub is_negative : ℤ → Bool
is_negative (pos n) = false
is_negative (negsuc n) = true

-- `std::all_of(…, b == 0xff)`
unfoldable pub all_erased : List ℕ → Bool
all_erased [] = true
all_erased (x ∷ xs) = x == 0xff && all_erased xs

module _ (l : FwLink) where
  open l use {St, info, write_page, read_page}

  -- The attempts that are left, and the code of the one before. `none` is 0.
  unfoldable pub page_tries : ℕ → ℤ → ℕ → List ℕ → St → Option FwError × St
  page_tries zero r addr bytes s = (some (page_code addr r), s)
  page_tries (suc n) r addr bytes s =
      let (w, s1) = write_page addr bytes s in
      let unwritten = page_tries n w addr bytes s1 in
      let ((c, back), s2) = read_page addr (length bytes) s1 in
      let unread = page_tries n (if is_code c 0 then pos bl_err_verify else c) addr bytes s2 in
      if is_code w bl_err_addr
      then (some (page_refused addr), s1)
      else if not (is_code w bl_ok)
      then unwritten
      else if is_code c 0 && same back bytes
      then (none, s2)
      else unread

  -- FW_PAGE_TRIES
  unfoldable pub page_write : ℕ → List ℕ → St → Option FwError × St
  page_write addr bytes s = page_tries 3 (pos 0) addr bytes s

  -- The loop over the pages from `p` on, page 0 at last: `left` are to be written yet. The number is
  -- `done`, so that `progress` was called with each count up to it.
  unfoldable pub flash_pages : ℕ → ℕ → ℕ → ℕ → List ℕ → ℕ → St → Option FwError × ℕ × St
  flash_pages zero p pages ps padded count s = (none, count, s)
  flash_pages (suc left) p pages ps padded count s =
      let page = if p == pages then 0 else p in
      let (r, s1) = page_write (page * ps % 65536) (take ps (drop (page * ps) padded)) s in
      let rest = flash_pages left (p + 1) pages ps padded (count + 1) s1 in
      elim r [ some e ↦ (some e, count, s1) | none ↦ rest ]

  -- Page 0 erased, then the pages.
  unfoldable pub flash_image : ℕ → ℕ → List ℕ → St → Option FwError × ℕ × St
  flash_image pages ps padded s =
      let (r, s1) = page_write 0 (replicate ps 0xff) s in
      elim r [ some e ↦ (some e, 0, s1) | none ↦ flash_pages pages 1 pages ps padded 1 s1 ]

  abbrev pub pages_of : ℕ → ℕ → ℕ
  pages_of size ps = (size + ps - 1) / ps

  -- `resize(pages * ps, 0xff)`
  abbrev pub padded_to : List ℕ → ℕ → List ℕ
  padded_to image ps = grow (pages_of (length image) ps * ps) image

  unfoldable pub fw_flash : List ℕ → St → Option FwError × ℕ × St
  fw_flash image s =
      let ((r, inf), s1) = info s in
      let ps = inf.page_size in
      let padded = padded_to image ps in
      if is_negative r
      then (some (no_answer r), 0, s1)
      else if length image == 0 || ltb inf.app_size (length image)
      then (some (image_size (length image) inf.app_size), 0, s1)
      else if all_erased (take ps padded)
      then (some no_vector, 0, s1)
      else flash_image (pages_of (length image) ps) ps padded s1
