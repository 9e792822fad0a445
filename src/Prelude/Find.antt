-- ===== src/Prelude/Find.antt =====
-- `std::string::find`, `substr` and the cutting of a text at a character.
use Prim.Native.Nat.{ℕ, suc}
use mathlib.Core.Path.{◌≡◌, refl}
use mathlib.Core.Bool.{Bool, true, false, not, ◌&&◌, ◌||◌}
use mathlib.Core.List.{[], ◌∷◌, ◌++◌}
use mathlib.Core.Option.{Option, none, some}
use native.Mathlib.Omega.{arith}
use in10dhost.Prelude.Tests.{◌==◌, if◌then◌else◌}
use in10dhost.Prelude.Texts.{Text, all}

unfoldable pub starts_with : Text → Text → Bool
starts_with [] s = true
starts_with (c ∷ cs) [] = false
starts_with (c ∷ cs) (x ∷ xs) = c == x && starts_with cs xs

-- The first place where a text occurs in another: `none` is `npos`.
unfoldable pub find_text : Text → Text → Option ℕ
find_text p [] = if starts_with p [] then some 0 else none
find_text p (x ∷ xs) =
    let rest = find_text p xs in
    if starts_with p (x ∷ xs) then some 0 else elim rest [ none ↦ none | some i ↦ some (suc i) ]

unfoldable pub occurs : Text → Text → Bool
occurs p [] = starts_with p []
occurs p (x ∷ xs) = starts_with p (x ∷ xs) || occurs p xs

-- What stands before the first `c` of a text, and behind it: `none` where there is no `c`.
unfoldable pub cut : ℕ → Text → Option (Text × Text)
cut c [] = none
cut c (x ∷ xs) =
    let rest = cut c xs in
    if x == c then some ([], xs) else elim rest [ none ↦ none | some (a, z) ↦ some (x ∷ a, z) ]

pub starts_with-append : (p s : Text) → starts_with p (p ++ s) ≡ true
unfolding starts_with
starts_with-append [] s = refl
starts_with-append (c ∷ cs) s = ground (arith, starts_with-append cs s)

-- A text occurs wherever it was put in.
pub occurs-append : (p pre post : Text) → occurs p (pre ++ (p ++ post)) ≡ true
unfolding occurs
occurs-append p (x ∷ pre) post = ground (arith, occurs-append p pre post)
occurs-append [] [] [] = unfold starts_with in refl
occurs-append [] [] (x ∷ post) = unfold starts_with in refl
occurs-append (c ∷ cs) [] post = ground (arith, starts_with-append (c ∷ cs) post)

-- `find` finds a text exactly if it occurs.
pub find_text-occurs :
    (p s : Text) → elim (find_text p s) [ none ↦ false | some i ↦ true ] ≡ occurs p s
unfolding find_text occurs
find_text-occurs p [] = ground arith
find_text-occurs p (x ∷ xs) = ground (arith, find_text-occurs p xs)

-- A text that cannot be cut at `c` does not hold it.
pub all-cut : (c : ℕ) (s : Text) → cut c s ≡ none → all (λ x. not (x == c)) s ≡ true
unfolding cut all
all-cut c [] h = refl
all-cut c (x ∷ xs) h = ground (arith, all-cut c xs)
