-- ===== src/Fw/Update.antt =====
-- `fw_flash`: what an update leaves that succeeds, and one that is broken off.
use in10dhost.Prelude.{
  ℕ, zero, suc, ◌+◌, ◌-◌, ◌*◌, ◌/◌, ◌≤◌, ◌<◌, ◌≡◌, refl, sym, ap, ◌∙◌, List, [], ◌∷◌, Option, none,
  some, get_or, length, replicate, arith, inl, inr, Option-cases, length-replicate,
}
use native.Mathlib.Nat.{div-add-mod', mod-lt}
use in10dhost.Prelude.Int.{pos}
use in10dhost.Fw.{grow}
use in10dhost.Fw.Write.{
  FwLink, FwError, page_tries, page_write, flash_pages, flash_image, fw_flash, pages_of, padded_to,
}
use in10dhost.Fw.Verified.{
  IsTrue, slice-get, page_tries-ok, write_step, mul_mono, page_at, written, flash_pages-next,
  flash_pages-fails, flash_pages-ok, ltb-cases, some_not_none,
}

get_or-grow : (n j : ℕ) (xs : List ℕ) → get_or (grow n xs) j 0xff ≡ get_or xs j 0xff
unfolding grow
get_or-grow zero j xs = refl
get_or-grow (suc n) zero [] = refl
get_or-grow (suc n) (suc j) [] = get_or-grow n j []
get_or-grow (suc n) zero (x ∷ xs) = refl
get_or-grow (suc n) (suc j) (x ∷ xs) = get_or-grow n j xs

length-grow_eq : (n : ℕ) (xs : List ℕ) → length xs ≤ n → length (grow n xs) ≡ n
unfolding grow
length-grow_eq zero [] h = refl
length-grow_eq zero (x ∷ xs) h = absurd (omega arith)
length-grow_eq (suc n) [] h = ap suc (length-grow_eq n [] (omega arith))
length-grow_eq (suc n) (x ∷ xs) h = ap suc (length-grow_eq n xs (omega arith))

-- The pages hold the image, and there is one at least for an image that is not empty.
pages_hold : (size ps : ℕ) → 1 ≤ ps → size ≤ (size + ps - 1) / ps * ps
pages_hold size ps h =
    omega (arith, div-add-mod' (size + ps - 1) ps, mod-lt (size + ps - 1) {m = ps} h)

some_page : (size ps : ℕ) → 1 ≤ ps → 1 ≤ size → 1 ≤ (size + ps - 1) / ps
some_page size ps h k = elim (ltb-cases 0 ((size + ps - 1) / ps)) [
  | inl some_left ↦ some_left
  | inr none_left ↦
      let no_page : (size + ps - 1) / ps ≡ 0 = omega (arith, none_left) in
      absurd (omega (arith, pages_hold size ps h, ap (λ k. k * ps) no_page))
]

module _ (l : FwLink) (flash : l.St → ℕ → ℕ) (v : IsTrue l flash) where
  open l use {St}

  flash_image-ok :
      (pages ps j : ℕ) (padded : List ℕ) (s : St)
      → 1 ≤ pages
      → 1 ≤ ps
      → length padded ≡ pages * ps
      → length padded ≤ 65536
      → j < pages * ps
      → (flash_image l pages ps padded s).0 ≡ none
      → flash (flash_image l pages ps padded s).2 j ≡ get_or padded j 0xff
  unfolding flash_image
  flash_image-ok pages ps j padded s some_left one size b lt h =
      elim (Option-cases (page_write l 0 (replicate ps 0xff) s).0) [
        | inl ok ↦
            let s1 : St = (page_write l 0 (replicate ps 0xff) s).1 in
            let next : flash_image l pages ps padded s
                ≡ flash_pages l pages 1 pages ps padded 1 s1 =
              rw (ok, flash_image) refl in
            simp next (
              flash_pages-ok l flash v pages 1 pages ps j 1 padded s1 (omega arith) (omega arith)
                one size b lt
                (elim (ltb-cases j ps) [
                  | inl near ↦ inr (inr (near, some_left))
                  | inr far ↦ inr (inl (omega arith))
                ])
                (simp next at h))
        | inr (x, bad) ↦
            let stopped : (flash_image l pages ps padded s).0 ≡ some x =
              rw (bad, flash_image) refl in
            absurd (some_not_none (sym stopped ∙ h))
      ]

  -- An update that succeeded passed each check and wrote the pages.
  fw_flash-passed :
      (image : List ℕ) (s : St)
      → let ps : ℕ = (l.info s).0.1.page_size in
        (fw_flash l image s).0 ≡ none
        → (1 ≤ length image)
          × (fw_flash l image s
              ≡ flash_image l (pages_of l (length image) ps) ps (padded_to l image ps) (l.info s).1)
  unfolding fw_flash
  fw_flash-passed image s h = ground arith

  -- When `fw_flash` returns 0, each byte of the pages that the image takes is in the flash as
  -- in the image, and 0xff behind its end, for a device with pages of one byte at least that
  -- together are no more than 64 KB, reads that are true and writes that stay within their
  -- page.
  pub fw_flash-ok :
      (image : List ℕ) (s : St) (j : ℕ)
      → let ps : ℕ = (l.info s).0.1.page_size in
        1 ≤ ps
        → pages_of l (length image) ps * ps ≤ 65536
        → j < pages_of l (length image) ps * ps
        → (fw_flash l image s).0 ≡ none
        → flash (fw_flash l image s).2 j ≡ get_or image j 0xff
  fw_flash-ok image s j one b lt h =
      let ps : ℕ = (l.info s).0.1.page_size in
      let pages : ℕ = pages_of l (length image) ps in
      let (full, run) = fw_flash-passed image s h in
      let size : length (padded_to l image ps) ≡ pages * ps =
        length-grow_eq (pages * ps) image (pages_hold (length image) ps one) in
      simp run (
        flash_image-ok pages ps j (padded_to l image ps) (l.info s).1
          (some_page (length image) ps one full) one size (omega arith) lt (simp run at h)
        ∙ get_or-grow (pages * ps) j image)

  flash_pages-count :
      (left p pages ps count : ℕ) (padded : List ℕ) (s : St)
      → count ≤ (flash_pages l left p pages ps padded count s).1
  unfolding flash_pages
  flash_pages-count zero p pages ps count padded s = omega arith
  flash_pages-count (suc left) p pages ps count padded s =
      let r : Option FwError × St = written l flash v (page_at l flash v p pages) ps padded s in
      elim (Option-cases r.0) [
        | inl ok ↦
            simp (flash_pages-next l flash v left p pages ps count padded s ok)
              (omega (arith, flash_pages-count left (p + 1) pages ps (count + 1) padded r.1))
        | inr (x, bad) ↦
            simp (flash_pages-fails l flash v left p pages ps count padded s x bad) (omega arith)
      ]

  -- As long as page 0 is not reached its bytes stay.
  flash_pages-first :
      (left p pages ps j : ℕ) (padded : List ℕ) (s : St)
      → p + left ≡ suc pages
      → 1 ≤ p
      → 1 ≤ ps
      → length padded ≡ pages * ps
      → length padded ≤ 65536
      → j < ps
      → (flash_pages l left p pages ps padded p s).1 < pages
      → flash (flash_pages l left p pages ps padded p s).2 j ≡ flash s j
  unfolding flash_pages
  flash_pages-first zero p pages ps j padded s e hp one size b lt h = refl
  flash_pages-first (suc left) p pages ps j padded s e hp one size b lt h =
      let q : ℕ = page_at l flash v p pages in
      let r : Option FwError × St = written l flash v q ps padded s in
      let early : p < pages =
        omega (arith, h, flash_pages-count (suc left) p pages ps p padded s) in
      let q_p : q ≡ p = ground arith in
      let behind : ps ≤ q * ps =
        omega (arith, mul_mono l flash v 1 p ps hp, ap (λ k. k * ps) q_p) in
      let fits : q * ps + ps ≤ pages * ps =
        omega (arith, mul_mono l flash v (suc p) pages ps early, ap (λ k. k * ps) q_p) in
      let stays : flash r.1 j ≡ flash s j =
        (write_step l flash v q ps j padded s (omega arith) b one).0 (inl (omega arith)) in
      elim (Option-cases r.0) [
        | inl ok ↦
            let next = flash_pages-next l flash v left p pages ps p padded s ok in
            simp next (
              flash_pages-first left (p + 1) pages ps j padded r.1 (omega arith) (omega arith) one
                size b lt (simp next at h)
              ∙ stays)
        | inr (x, bad) ↦ simp (flash_pages-fails l flash v left p pages ps p padded s x bad) stays
      ]

  get_or-replicate : (n j : ℕ) → j < n → get_or (replicate {A = ℕ} n 0xff) j 0xff ≡ 0xff
  get_or-replicate zero j h = absurd (omega arith)
  get_or-replicate (suc n) zero h = refl
  get_or-replicate (suc n) (suc j) h = get_or-replicate n j (omega arith)

  erased :
      (ps j : ℕ) (s : St)
      → j < ps
      → (page_write l 0 (replicate ps 0xff) s).0 ≡ none
      → flash (page_write l 0 (replicate ps 0xff) s).1 j ≡ 0xff
  unfolding page_write
  erased ps j s h e =
      ap (flash (page_tries l 3 (pos 0) 0 (replicate ps 0xff) s).1) (omega arith)
      ∙ slice-get _ 0 j (replicate ps 0xff)
          (page_tries-ok l flash v 3 (pos 0) 0 (replicate ps 0xff) s e)
          (omega (arith, length-replicate {A = ℕ} ps 0xff))
      ∙ get_or-replicate ps j h

  flash_image-broken :
      (pages ps j : ℕ) (padded : List ℕ) (s : St)
      → 1 ≤ ps
      → length padded ≡ pages * ps
      → length padded ≤ 65536
      → j < ps
      → 1 ≤ (flash_image l pages ps padded s).1
      → (flash_image l pages ps padded s).1 < pages
      → flash (flash_image l pages ps padded s).2 j ≡ 0xff
  unfolding flash_image
  flash_image-broken pages ps j padded s one size b lt some_done not_all =
      elim (Option-cases (page_write l 0 (replicate ps 0xff) s).0) [
        | inl ok ↦
            let s1 : St = (page_write l 0 (replicate ps 0xff) s).1 in
            let next : flash_image l pages ps padded s
                ≡ flash_pages l pages 1 pages ps padded 1 s1 =
              rw (ok, flash_image) refl in
            simp next (
              flash_pages-first pages 1 pages ps j padded s1 (omega arith) (omega arith) one size b
                lt (simp next at not_all)
              ∙ erased ps j s lt ok)
        | inr (x, bad) ↦
            let stopped : (flash_image l pages ps padded s).1 ≡ 0 = rw (bad, flash_image) refl in
            absurd (omega (arith, stopped, some_done))
      ]

  fw_flash-started :
      (image : List ℕ) (s : St)
      → let ps : ℕ = (l.info s).0.1.page_size in
        1 ≤ (fw_flash l image s).1
        → fw_flash l image s
          ≡ flash_image l (pages_of l (length image) ps) ps (padded_to l image ps) (l.info s).1
  unfolding fw_flash
  fw_flash-started image s h = ground arith

  -- When `fw_flash` stops after page 0 was erased and before it was written at last, by the
  -- count of pages done, each byte of page 0 is 0xff, so that the device has no application and
  -- stays in its bootloader. The device is as for an update that succeeds.
  pub fw_flash-broken :
      (image : List ℕ) (s : St) (j : ℕ)
      → let ps : ℕ = (l.info s).0.1.page_size in
        1 ≤ ps
        → pages_of l (length image) ps * ps ≤ 65536
        → j < ps
        → 1 ≤ (fw_flash l image s).1
        → (fw_flash l image s).1 < pages_of l (length image) ps
        → flash (fw_flash l image s).2 j ≡ 0xff
  fw_flash-broken image s j one b lt some_done not_all =
      let ps : ℕ = (l.info s).0.1.page_size in
      let pages : ℕ = pages_of l (length image) ps in
      let run = fw_flash-started image s some_done in
      let size : length (padded_to l image ps) ≡ pages * ps =
        length-grow_eq (pages * ps) image (pages_hold (length image) ps one) in
      simp run (
        flash_image-broken pages ps j (padded_to l image ps) (l.info s).1 one size (omega arith) lt
          (simp run at some_done) (simp run at not_all))
