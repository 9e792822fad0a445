-- ===== src/Fw/Verified.antt =====
-- What an update leaves in the flash of the device, on a link whose reads are true.
use in10dhost.Prelude.{
  ℕ, zero, suc, ◌+◌, ◌-◌, ◌*◌, ◌%◌, ◌≤◌, ◌<◌, ◌≡◌, ◌≢◌, refl, sym, ap, ◌∙◌, List, [], ◌∷◌, true,
  Option, none, some, get_or, ◌==◌, if◌then◌else◌, length, take, drop, same, same→eq, arith, inl,
  inr, ◌⊎◌, Bool-cases, Option-cases, length-take, length-drop,
}
use native.Mathlib.Nat.{mul-le-mul_right}
use in10dhost.Prelude.Int.{ℤ, pos, negsuc}
use in10dhost.Fw.Write.{
  FwLink, FwError, is_code, page_tries, page_write, flash_pages, bl_err_verify,
}

-- The bytes from `a` on.
unfoldable pub slice : (ℕ → ℕ) → ℕ → ℕ → List ℕ
slice f a zero = []
slice f a (suc n) = f a ∷ slice f (suc a) n

-- The device as its bootloader describes it, by the bytes of its flash in each state: a read that
-- succeeds gives what is there, and a write changes the bytes of its page only.
pub record IsTrue (l : FwLink) (flash : l.St → ℕ → ℕ) : Type 0 where
  pub read_true :
      (a n : ℕ) (s : l.St)
      → (l.read_page a n s).0.0 ≡ pos 0
      → (l.read_page a n s).0.1 ≡ slice (flash s) a n
  pub read_keeps : (a n j : ℕ) (s : l.St) → flash (l.read_page a n s).1 j ≡ flash s j
  pub write_local :
      (a j : ℕ) (xs : List ℕ) (s : l.St)
      → (j < a) ⊎ (a + length xs ≤ j)
      → flash (l.write_page a xs s).1 j ≡ flash s j

slice-ext : (f g : ℕ → ℕ) (a n : ℕ) → ((j : ℕ) → f j ≡ g j) → slice f a n ≡ slice g a n
unfolding slice
slice-ext f g a zero h = refl
slice-ext f g a (suc n) h = rw (h a, slice-ext f g (suc a) n h)

pub slice-get :
    (f : ℕ → ℕ) (a i : ℕ) (xs : List ℕ)
    → slice f a (length xs) ≡ xs
    → i < length xs
    → f (a + i) ≡ get_or xs i 0xff
unfolding slice
slice-get f a i [] e h = absurd (omega arith)
slice-get f a zero (x ∷ xs) e h = ground arith
slice-get f a (suc i) (x ∷ xs) e h = ground (arith, slice-get f (suc a) i xs)

get_or-drop : (k i : ℕ) (xs : List ℕ) → get_or (drop k xs) i 0xff ≡ get_or xs (k + i) 0xff
get_or-drop zero i xs = ground arith
get_or-drop (suc k) i [] = refl
get_or-drop (suc k) i (x ∷ xs) = ground (arith, get_or-drop k i xs)

get_or-take : (n i : ℕ) (xs : List ℕ) → i < n → get_or (take n xs) i 0xff ≡ get_or xs i 0xff
get_or-take zero i xs h = absurd (omega arith)
get_or-take (suc n) i [] h = refl
get_or-take (suc n) zero (x ∷ xs) h = refl
get_or-take (suc n) (suc i) (x ∷ xs) h = get_or-take n i xs (omega arith)

pub some_not_none {ℓ} : {A : Type ℓ} {x : A} → some x ≢ none
some_not_none e = cc

pub ltb-cases : (m n : ℕ) → (m < n) ⊎ (n ≤ m)
ltb-cases m n = omega arith

-- What a written page means for a byte `x` that was `y` and ought to be `g`: at the last count, where
-- page 0 is written, and before.
last_page :
    (left ps j x y g total : ℕ)
    → j < total
    → (ps ≤ j → x ≡ y)
    → (j < ps → x ≡ g)
    → (y ≡ g) ⊎ ((total ≤ j) ⊎ ((j < ps) × (1 ≤ suc left)))
    → (x ≡ g) ⊎ ((total + ps ≤ j) ⊎ ((j < ps) × (1 ≤ left)))
last_page left ps j x y g total lt out inside was = elim (ltb-cases j ps) [
  | inl near ↦ inl (inside near)
  | inr far ↦ ground (arith, out far)
]

page_before :
    (left start ps j x y g : ℕ)
    → 1 ≤ left
    → ((j < start) ⊎ (start + ps ≤ j) → x ≡ y)
    → (start ≤ j → j < start + ps → x ≡ g)
    → (y ≡ g) ⊎ ((start ≤ j) ⊎ ((j < ps) × (1 ≤ suc left)))
    → (x ≡ g) ⊎ ((start + ps ≤ j) ⊎ ((j < ps) × (1 ≤ left)))
page_before left start ps j x y g some_left out inside was = elim (ltb-cases j start) [
  | inl below ↦ ground (arith, out (inl below))
  | inr above ↦ elim (ltb-cases j (start + ps)) [
    | inl near ↦ inl (inside above near)
    | inr far ↦ inr (inl far)
  ]
]

module _ (l : FwLink) (flash : l.St → ℕ → ℕ) (v : IsTrue l flash) where
  open l use {St, write_page, read_page}

  -- Whatever the attempts come to, the bytes outside the page stay.
  pub page_tries-local :
      (n : ℕ) (r : ℤ) (a j : ℕ) (xs : List ℕ) (s : St)
      → (j < a) ⊎ (a + length xs ≤ j)
      → flash (page_tries l n r a xs s).1 j ≡ flash s j
  unfolding page_tries
  page_tries-local zero r a j xs s h = refl
  page_tries-local (suc n) r a j xs s h =
      let s1 : St = (write_page a xs s).1 in
      let w : ℤ = (write_page a xs s).0 in
      let c : ℤ = (read_page a (length xs) s1).0.0 in
      let s2 : St = (read_page a (length xs) s1).1 in
      ground (
        arith,
        v.write_local a j xs s h,
        v.read_keeps a (length xs) j s1,
        page_tries-local n w a j xs s1 h,
        page_tries-local n (if is_code c 0 then pos bl_err_verify else c) a j xs s2 h,
      )

  is_code_zero : (c : ℤ) → is_code c 0 ≡ true → c ≡ pos 0
  unfolding is_code
  is_code_zero (pos n) h = ground arith
  is_code_zero (negsuc n) h = cc

  -- An attempt that was read back right leaves the page as written.
  read_back :
      (a : ℕ) (xs : List ℕ) (s : St)
      → is_code (read_page a (length xs) s).0.0 0 ≡ true
      → same (read_page a (length xs) s).0.1 xs ≡ true
      → slice (flash (read_page a (length xs) s).1) a (length xs) ≡ xs
  read_back a xs s h e =
      slice-ext (flash (read_page a (length xs) s).1) (flash s) a (length xs)
        (λ j. v.read_keeps a (length xs) j s)
      ∙ sym (v.read_true a (length xs) s (is_code_zero _ h))
      ∙ same→eq _ xs e

  pub page_tries-ok :
      (n : ℕ) (r : ℤ) (a : ℕ) (xs : List ℕ) (s : St)
      → (page_tries l n r a xs s).0 ≡ none
      → slice (flash (page_tries l n r a xs s).1) a (length xs) ≡ xs
  unfolding page_tries
  page_tries-ok zero r a xs s h = cc
  page_tries-ok (suc n) r a xs s h =
      let s1 : St = (write_page a xs s).1 in
      let w : ℤ = (write_page a xs s).0 in
      let c : ℤ = (read_page a (length xs) s1).0.0 in
      let s2 : St = (read_page a (length xs) s1).1 in
      ground (
        arith,
        read_back a xs s1,
        page_tries-ok n w a xs s1,
        page_tries-ok n (if is_code c 0 then pos bl_err_verify else c) a xs s2,
      )

  -- A page of the image is in the flash once it was written, and the bytes beside it stay.
  pub write_step :
      (q ps j : ℕ) (padded : List ℕ) (s : St)
      → q * ps + ps ≤ length padded
      → length padded ≤ 65536
      → 1 ≤ ps
      → let bytes : List ℕ = take ps (drop (q * ps) padded) in
        let r : Option FwError × St = page_write l (q * ps % 65536) bytes s in
        ((j < q * ps) ⊎ (q * ps + ps ≤ j) → flash r.1 j ≡ flash s j)
        × (r.0 ≡ none → q * ps ≤ j → j < q * ps + ps → flash r.1 j ≡ get_or padded j 0xff)
  unfolding page_write
  write_step q ps j padded s h b one =
      let bytes : List ℕ = take ps (drop (q * ps) padded) in
      let size : length bytes ≡ ps =
        omega (arith, length-take ps (drop (q * ps) padded), length-drop (q * ps) padded) in
      let at : q * ps % 65536 ≡ q * ps = omega arith in
      rw at (
        (λ o. page_tries-local 3 (pos 0) (q * ps) j bytes s (ground arith)),
        (λ e lo hi.
            let i : ℕ = j - q * ps in
            let at_j : j ≡ q * ps + i = omega arith in
            ap (flash (page_tries l 3 (pos 0) (q * ps) bytes s).1) at_j
            ∙ slice-get _ (q * ps) i bytes (page_tries-ok 3 (pos 0) (q * ps) bytes s e)
                (omega arith)
            ∙ get_or-take ps i (drop (q * ps) padded) (omega arith)
            ∙ get_or-drop (q * ps) i padded
            ∙ ap (λ k. get_or padded k 0xff) (sym at_j)),
      )

  pub mul_mono : (x y ps : ℕ) → x ≤ y → x * ps ≤ y * ps
  mul_mono x y ps h = mul-le-mul_right ps h

  page_end : (q pages ps : ℕ) → q < pages → q * ps + ps ≤ pages * ps
  page_end q pages ps h = omega (arith, mul_mono (suc q) pages ps h)

  abbrev pub page_at : ℕ → ℕ → ℕ
  page_at p pages = if p == pages then 0 else p

  -- The write of page `q` at the loop's count `p`.
  abbrev pub written : ℕ → ℕ → List ℕ → St → Option FwError × St
  written q ps padded s = page_write l (q * ps % 65536) (take ps (drop (q * ps) padded)) s

  pub flash_pages-next :
      (left p pages ps count : ℕ) (padded : List ℕ) (s : St)
      → (written (page_at p pages) ps padded s).0 ≡ none
      → flash_pages l (suc left) p pages ps padded count s
        ≡ flash_pages l left
            (p + 1)
            pages
            ps
            padded
            (count + 1)
            (written (page_at p pages) ps padded s).1
  unfolding flash_pages
  flash_pages-next left p pages ps count padded s e = rw (e, flash_pages) refl

  pub flash_pages-fails :
      (left p pages ps count : ℕ) (padded : List ℕ) (s : St) (x : FwError)
      → (written (page_at p pages) ps padded s).0 ≡ some x
      → flash_pages l (suc left) p pages ps padded count s
        ≡ (some x, count, (written (page_at p pages) ps padded s).1)
  unfolding flash_pages
  flash_pages-fails left p pages ps count padded s x e = rw (e, flash_pages) refl

  pub page_at-lt : (left p pages : ℕ) → p + suc left ≡ suc pages → 1 ≤ p → page_at p pages < pages
  page_at-lt left p pages e hp = ground arith

  -- One page written takes the loop's claim from `p` to the next count.
  page_right :
      (left p pages ps j : ℕ) (padded : List ℕ) (s : St)
      → p + suc left ≡ suc pages
      → 1 ≤ p
      → 1 ≤ ps
      → length padded ≡ pages * ps
      → length padded ≤ 65536
      → j < pages * ps
      → (flash s j ≡ get_or padded j 0xff) ⊎ ((p * ps ≤ j) ⊎ ((j < ps) × (1 ≤ suc left)))
      → (written (page_at p pages) ps padded s).0 ≡ none
      → (flash (written (page_at p pages) ps padded s).1 j ≡ get_or padded j 0xff)
        ⊎ (((p + 1) * ps ≤ j) ⊎ ((j < ps) × (1 ≤ left)))
  page_right left p pages ps j padded s e hp one size b lt was ok =
      let q : ℕ = page_at p pages in
      let r : Option FwError × St = written q ps padded s in
      let fits : q * ps + ps ≤ pages * ps = page_end q pages ps (page_at-lt left p pages e hp) in
      let step = write_step q ps j padded s (omega arith) b one in
      let in_page : q * ps ≤ j → j < q * ps + ps → flash r.1 j ≡ get_or padded j 0xff = step.1 ok in
      let next_end : (p + 1) * ps ≡ p * ps + ps = omega arith in
      elim (Bool-cases (p == pages)) [
        | inl last ↦
            let same_end : p ≡ pages = ground arith in
            let q_zero : q ≡ 0 = simp last refl in
            let at_zero : q * ps ≡ 0 = ap (λ k. k * ps) q_zero ∙ (omega arith) in
            let at_end : p * ps ≡ pages * ps = ap (λ k. k * ps) same_end in
            rw next_end (
              last_page left ps j (flash r.1 j) (flash s j) (get_or padded j 0xff) (p * ps)
                (omega arith) (λ o. step.0 (inr (omega arith)))
                (λ o. in_page (omega arith) (omega arith)) was)
        | inr more ↦
            let q_p : q ≡ p = simp more refl in
            let at_p : q * ps ≡ p * ps = ap (λ k. k * ps) q_p in
            rw next_end (
              page_before left (p * ps) ps j (flash r.1 j) (flash s j) (get_or padded j 0xff)
                (ground arith) (λ o. step.0 (ground (arith, o)))
                (λ lo hi. in_page (omega arith) (omega arith)) was)
      ]

  -- Once the loop is through, each page from `p` on and page 0 are as in the image, and a byte that
  -- was right before is right still.
  pub flash_pages-ok :
      (left p pages ps j count : ℕ) (padded : List ℕ) (s : St)
      → p + left ≡ suc pages
      → 1 ≤ p
      → 1 ≤ ps
      → length padded ≡ pages * ps
      → length padded ≤ 65536
      → j < pages * ps
      → (flash s j ≡ get_or padded j 0xff) ⊎ ((p * ps ≤ j) ⊎ ((j < ps) × (1 ≤ left)))
      → (flash_pages l left p pages ps padded count s).0 ≡ none
      → flash (flash_pages l left p pages ps padded count s).2 j ≡ get_or padded j 0xff
  unfolding flash_pages
  flash_pages-ok zero p pages ps j count padded s e hp one size b lt (inl r) h = r
  flash_pages-ok zero p pages ps j count padded s e hp one size b lt (inr (inl r)) h =
      absurd (omega (arith, mul_mono pages p ps (omega arith)))
  flash_pages-ok zero p pages ps j count padded s e hp one size b lt (inr (inr r)) h =
      absurd (omega (arith, r.1))
  flash_pages-ok (suc left) p pages ps j count padded s e hp one size b lt was h =
      let q : ℕ = page_at p pages in
      let r : Option FwError × St = written q ps padded s in
      elim (Option-cases r.0) [
        | inl ok ↦
            let next = flash_pages-next left p pages ps count padded s ok in
            simp next (
              flash_pages-ok left (p + 1) pages ps j (count + 1) padded r.1 (omega arith)
                (omega arith) one size b lt
                (page_right left p pages ps j padded s e hp one size b lt was ok) (simp next at h))
        | inr (x, bad) ↦ absurd (
            some_not_none
              (sym (ap (λ t. t.0) (flash_pages-fails left p pages ps count padded s x bad)) ∙ h))
      ]
