-- ===== src/Prelude/Texts.antt =====
-- Text as a list of bytes, and the character classes of the C locale.
use Prim.Native.Nat.{ℕ, ◌+◌}
use Prim.Native.Char.{code}
use Prim.Native.String.{String}
use mathlib.Core.Path.{◌≡◌, refl, ap}
use mathlib.Core.Bool.{Bool, true, false, not, ◌&&◌, ◌||◌}
use mathlib.Core.List.{List, [], ◌∷◌, ◌++◌}
use native.Mathlib.Omega.{arith}
use in10dhost.Prelude.Tests.{leb, ◌==◌, if◌then◌else◌, Bool-cases}
use mathlib.Core.Logic.{inl, inr}

abbrev pub Text : Type 0
Text = List ℕ

abbrev pub codes : String → Text
codes String.[] = []
codes (String.◌∷◌ c s) = code c ∷ codes s

abbrev pub is_space : ℕ → Bool
is_space c = c == 32 || leb 9 c && leb c 13

abbrev pub is_digit : ℕ → Bool
is_digit c = leb b'0' c && leb c b'9'

abbrev pub is_upper : ℕ → Bool
is_upper c = leb b'A' c && leb c b'Z'

abbrev pub is_lower : ℕ → Bool
is_lower c = leb b'a' c && leb c b'z'

abbrev pub is_alnum : ℕ → Bool
is_alnum c = is_digit c || is_upper c || is_lower c

abbrev pub is_xdigit : ℕ → Bool
is_xdigit c = is_digit c || leb b'A' c && leb c b'F' || leb b'a' c && leb c b'f'

abbrev pub to_lower : ℕ → ℕ
to_lower c = if is_upper c then c + 32 else c

and_left : (a b : Bool) → (a && b) ≡ true → a ≡ true
and_left a b h = ground arith

and_right : (a b : Bool) → (a && b) ≡ true → b ≡ true
and_right a b h = ground arith

-- Two texts are the same, byte by byte.
unfoldable pub same : Text → Text → Bool
same [] [] = true
same [] (y ∷ ys) = false
same (x ∷ xs) [] = false
same (x ∷ xs) (y ∷ ys) = x == y && same xs ys

-- What C's functions see of a text: all before its first NUL.
unfoldable pub c_str : Text → Text
c_str [] = []
c_str (c ∷ cs) = let rest = c_str cs in if c == 0 then [] else c ∷ rest

pub same→eq : (xs ys : Text) → same xs ys ≡ true → xs ≡ ys
unfolding same
same→eq [] [] h = refl
same→eq [] (y ∷ ys) h = ground arith
same→eq (x ∷ xs) [] h = ground arith
same→eq (x ∷ xs) (y ∷ ys) h = ground (arith, same→eq xs ys)

pub same_self : (xs : Text) → same xs xs ≡ true
unfolding same
same_self [] = refl
same_self (x ∷ xs) = ground (arith, same_self xs)

module _ {ℓ} {A : Type ℓ} where
  unfoldable pub all : (A → Bool) → List A → Bool
  all p [] = true
  all p (x ∷ xs) = p x && all p xs

  -- Without the leading elements that pass `p`.
  unfoldable pub drop_while : (A → Bool) → List A → List A
  drop_while p [] = []
  drop_while p (x ∷ xs) = if p x then drop_while p xs else x ∷ xs

  pub drop_while_none :
      (p : A → Bool) (x : A) (xs : List A) → p x ≡ false → drop_while p (x ∷ xs) ≡ x ∷ xs
  unfolding drop_while
  drop_while_none p x xs h = rw h

  keep_last : (A → Bool) → A → List A → List A
  keep_last p x [] = if p x then [] else x ∷ []
  keep_last p x (y ∷ ys) = x ∷ y ∷ ys

  -- Without the trailing elements that pass `p`: `while (p(s.back())) s.pop_back()`.
  keep_last_none :
      (p : A → Bool) (x : A) (xs : List A) → not (p x) ≡ true → keep_last p x xs ≡ x ∷ xs
  unfolding keep_last
  keep_last_none p x [] h = ground arith
  keep_last_none p x (y ∷ ys) h = refl

  keep_last_split :
      (p : A → Bool) (x : A) (xs kept post : List A)
      → xs ≡ kept ++ post
      → all p post ≡ true
      → (post' : List A) × (x ∷ xs ≡ keep_last p x kept ++ post') × (all p post' ≡ true)
  unfolding keep_last all
  keep_last_split p x xs [] post e h = elim (Bool-cases (p x)) [
    | inl b ↦ (x ∷ post, rw (b, e), rw b h)
    | inr b ↦ (post, rw (b, e), h)
  ]
  keep_last_split p x xs (y ∷ ys) post e h = (post, ap (λ l. x ∷ l) e, h)

  unfoldable pub drop_end : (A → Bool) → List A → List A
  unfolding keep_last
  drop_end p [] = []
  drop_end p (x ∷ xs) = keep_last p x (drop_end p xs)

  pub drop_while-append_all :
      (p : A → Bool) (xs ys : List A) → all p xs ≡ true → drop_while p (xs ++ ys) ≡ drop_while p ys
  unfolding all drop_while
  drop_while-append_all p [] ys h = refl
  drop_while-append_all p (x ∷ xs) ys h = ground (arith, drop_while-append_all p xs ys)

  pub drop_end-all : (p : A → Bool) (xs : List A) → all p xs ≡ true → drop_end p xs ≡ []
  unfolding all drop_end
  drop_end-all p [] h = refl
  drop_end-all p (x ∷ xs) h = ground (arith, drop_end-all p xs)

  pub drop_end-append_all :
      (p : A → Bool) (xs ys : List A) → all p ys ≡ true → drop_end p (xs ++ ys) ≡ drop_end p xs
  unfolding drop_end
  drop_end-append_all p [] ys h = drop_end-all p ys h
  drop_end-append_all p (x ∷ xs) ys h = rw (drop_end-append_all p xs ys h)

  pub drop_end_none :
      (p : A → Bool) (xs : List A) → all (λ x. not (p x)) xs ≡ true → drop_end p xs ≡ xs
  unfolding all drop_end
  drop_end_none p [] h = refl
  drop_end_none p (x ∷ xs) h =
      rw (drop_end_none p xs (and_right (not (p x)) _ h))
        (keep_last_none p x xs (and_left (not (p x)) _ h))

  pub all-append : (p : A → Bool) (xs ys : List A) → all p (xs ++ ys) ≡ (all p xs && all p ys)
  unfolding all
  all-append p [] ys = refl
  all-append p (x ∷ xs) ys = ground (arith, all-append p xs ys)

  -- A list is what `drop_while` took off, followed by what it left.
  pub drop_while_split :
      (p : A → Bool) (xs : List A)
      → (pre : List A) × (xs ≡ pre ++ drop_while p xs) × (all p pre ≡ true)
  unfolding all drop_while
  drop_while_split p [] = ([], refl, refl)
  drop_while_split p (x ∷ xs) = elim (Bool-cases (p x)) [
    | inl e ↦
        let (pre, eq, ok) = drop_while_split p xs in (x ∷ pre, rw e (ap (λ l. x ∷ l) eq), rw e ok)
    | inr e ↦ ([], rw e refl, refl)
  ]

  pub drop_end_split :
      (p : A → Bool) (xs : List A)
      → (post : List A) × (xs ≡ drop_end p xs ++ post) × (all p post ≡ true)
  unfolding all drop_end
  drop_end_split p [] = ([], refl, refl)
  drop_end_split p (x ∷ xs) =
      let (post, eq, ok) = drop_end_split p xs in keep_last_split p x xs (drop_end p xs) post eq ok

  pub all_imp :
      (p q : A → Bool) (xs : List A)
      → ((x : A) → p x ≡ true → q x ≡ true)
      → all p xs ≡ true
      → all q xs ≡ true
  unfolding all
  all_imp p q [] h a = refl
  all_imp p q (x ∷ xs) h a = ground (arith, h x, all_imp p q xs h)

  -- After both cuts the first element, if there is one, does not pass `p`.
  unfoldable pub starts_with_other : (A → Bool) → List A → Bool
  starts_with_other p [] = true
  starts_with_other p (x ∷ xs) = not (p x)

  pub drop_while-starts :
      (p : A → Bool) (xs : List A) → starts_with_other p (drop_while p xs) ≡ true
  unfolding drop_while starts_with_other
  drop_while-starts p [] = refl
  drop_while-starts p (x ∷ xs) = ground (arith, drop_while-starts p xs)

  pub drop_end-starts :
      (p : A → Bool) (xs : List A)
      → starts_with_other p xs ≡ true
      → starts_with_other p (drop_end p xs) ≡ true
  unfolding drop_end keep_last starts_with_other
  drop_end-starts p [] h = refl
  drop_end-starts p (x ∷ xs) h = go (drop_end p xs)
    where
      go : (ys : List A) → starts_with_other p (keep_last p x ys) ≡ true
      go [] = ground arith
      go (y ∷ ys) = h

  pub drop_while_starts :
      (p q : A → Bool) (xs : List A)
      → ((x : A) → not (p x) ≡ true → q x ≡ false)
      → starts_with_other p xs ≡ true
      → drop_while q xs ≡ xs
  unfolding drop_while starts_with_other
  drop_while_starts p q [] imp h = refl
  drop_while_starts p q (x ∷ xs) imp h = rw (imp x h)

module _ {ℓ} {A : Type ℓ} where
  keep_last_more : (p : A → Bool) (x y : A) (ys : List A) → keep_last p x (y ∷ ys) ≡ x ∷ y ∷ ys
  unfolding keep_last
  keep_last_more p x y ys = refl

  -- Nothing is cut off a text that ends in something else.
  pub drop_end-append_kept :
      (p : A → Bool) (xs : List A) (y : A) (ys : List A)
      → all (λ x. not (p x)) (y ∷ ys) ≡ true
      → drop_end p (xs ++ y ∷ ys) ≡ xs ++ y ∷ ys
  unfolding drop_end
  drop_end-append_kept p [] y ys h = drop_end_none p (y ∷ ys) h
  drop_end-append_kept p (x ∷ []) y ys h =
      rw (drop_end-append_kept p [] y ys h) (keep_last_more p x y ys)
  drop_end-append_kept p (x ∷ z ∷ xs) y ys h =
      rw (drop_end-append_kept p (z ∷ xs) y ys h) (keep_last_more p x z (xs ++ y ∷ ys))
