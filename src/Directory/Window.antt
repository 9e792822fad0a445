-- ===== src/Directory/Window.antt =====
-- Reading a content in pieces.
use in10dhost.Prelude.{
  ℕ, zero, suc, ◌+◌, ◌≤◌, ◌≡◌, refl, sym, ap, [], ◌∷◌, ◌++◌, Text, length, take, drop, leb, arith,
  Bool-cases, inl, inr,
}
use in10dhost.Prelude.Int.{pos}
use in10dhost.Directory.{window}

drop_past : (n : ℕ) (xs : Text) → length xs ≤ n → drop n xs ≡ []
drop_past zero [] h = refl
drop_past zero (x ∷ xs) h = absurd (omega arith)
drop_past (suc n) [] h = refl
drop_past (suc n) (x ∷ xs) h = drop_past n xs (omega arith)

take_none : (n : ℕ) → take {A = ℕ} n [] ≡ []
take_none zero = refl
take_none (suc n) = refl

drop_none : (n : ℕ) → drop {A = ℕ} n [] ≡ []
drop_none zero = refl
drop_none (suc n) = refl

window_lem : (size offset : ℕ) (s : Text) → window size (pos offset) s ≡ take size (drop offset s)
unfolding window
window_lem size offset s = elim (Bool-cases (leb (length s) offset)) [
  | inl e ↦ rw (e, drop_past offset s (ground arith), take_none size) refl
  | inr e ↦ rw e refl
]

drop-drop : (m n : ℕ) (xs : Text) → drop (m + n) xs ≡ drop n (drop m xs)
drop-drop zero n xs = let e : 0 + n ≡ n = omega arith in rw e refl
drop-drop (suc m) n [] = let e : suc m + n ≡ suc (m + n) = omega arith in rw e (sym (drop_none n))
drop-drop (suc m) n (x ∷ xs) =
    let e : suc m + n ≡ suc (m + n) = omega arith in rw e (drop-drop m n xs)

take-take : (n m : ℕ) (xs : Text) → take n xs ++ take m (drop n xs) ≡ take (n + m) xs
take-take zero m xs = let e : 0 + m ≡ m = omega arith in rw e refl
take-take (suc n) m [] = let e : suc n + m ≡ suc (n + m) = omega arith in rw e (take_none m)
take-take (suc n) m (x ∷ xs) =
    let e : suc n + m ≡ suc (n + m) = omega arith in rw e (ap (λ l. x ∷ l) (take-take n m xs))

pub window-append :
    (n m offset : ℕ) (s : Text)
    → window n (pos offset) s ++ window m (pos (offset + n)) s ≡ window (n + m) (pos offset) s
window-append n m offset s =
    rw
      (
        window_lem n offset s,
        window_lem m (offset + n) s,
        window_lem (n + m) offset s,
        drop-drop offset n s,
      )
      (take-take n m (drop offset s))
