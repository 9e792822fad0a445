-- ===== src/Prelude/Bits.antt =====
-- The bits of a number, and what `&`, `|`, `^`, `1 << i` and `~` do to each.
use Prim.Native.Nat.{
  ℕ, zero, suc, ◌-◌, ◌/◌, ◌%◌, ◌^◌, ◌≤◌, ◌<◌, min, max, bit_and, bit_or, digits, bit_and-bitwise,
  bit_or-bitwise,
}
use mathlib.Core.Path.{◌≡◌, refl}
use mathlib.Core.Bool.{Bool, true, false, not, ◌&&◌, ◌||◌}
use native.Mathlib.Nat.{pow-suc, one-le-pow}
use native.Mathlib.Decide.{ℕ_discrete}
use mathlib.Core.List.{List, [], ◌∷◌}
use mathlib.Core.Logic.{inl, inr}
use native.Mathlib.Omega.{arith}
use in10dhost.Prelude.Tests.{◌==◌, Bool-cases, if◌then◌else◌}

-- Bit `i` of `x`.
unfoldable pub test_bit : ℕ → ℕ → Bool
test_bit x zero = x % 2 == 1
test_bit x (suc i) = test_bit (x / 2) i

-- Reading a number digit by digit gives the same on each fuel that reaches its end.
enough_fuel :
    (rest : ℕ → ℕ) (op : ℕ → ℕ → ℕ) (k l x y : ℕ)
    → x ≤ k
    → x ≤ l
    → digits rest op k x y ≡ digits rest op l x y
enough_fuel rest op zero l (suc x) y h h' = absurd (omega arith)
enough_fuel rest op (suc k) zero (suc x) y h h' = absurd (omega arith)
enough_fuel rest op zero zero zero y h h' = refl
enough_fuel rest op zero (suc l) zero y h h' = refl
enough_fuel rest op (suc k) zero zero y h h' = refl
enough_fuel rest op (suc k) (suc l) zero y h h' = refl
enough_fuel rest op (suc k) (suc l) (suc x) y h h' =
    let half : ℕ = suc x / 2 in
    omega (arith, enough_fuel rest op k l half (y / 2) (omega arith) (omega arith))

none_in_common : (y : ℕ) → bit_and 0 y ≡ 0
none_in_common y = bit_and-bitwise 0 y

one_side : (y : ℕ) → bit_or 0 y ≡ y
one_side y = bit_or-bitwise 0 y

-- The halves of `x & y` and `x | y`, and the lowest digits.
both_parts :
    (x y : ℕ)
    → (bit_and x y / 2 ≡ bit_and (x / 2) (y / 2)) × (bit_and x y % 2 ≡ min (x % 2) (y % 2))
both_parts zero y =
    (omega (arith, none_in_common y, none_in_common (y / 2)), omega (arith, none_in_common y))
both_parts (suc x) y =
    let half : ℕ = suc x / 2 in
    let whole = bit_and-bitwise (suc x) y in
    let rest = bit_and-bitwise half (y / 2) in
    let same_rest = enough_fuel (λ d. 0) min x half half (y / 2) (omega arith) (omega arith) in
    (omega (arith, whole, rest, same_rest), omega (arith, whole, rest, same_rest))

any_parts :
    (x y : ℕ) → (bit_or x y / 2 ≡ bit_or (x / 2) (y / 2)) × (bit_or x y % 2 ≡ max (x % 2) (y % 2))
any_parts zero y = (omega (arith, one_side y, one_side (y / 2)), omega (arith, one_side y))
any_parts (suc x) y =
    let half : ℕ = suc x / 2 in
    let whole = bit_or-bitwise (suc x) y in
    let rest = bit_or-bitwise half (y / 2) in
    let same_rest = enough_fuel (λ d. d) max x half half (y / 2) (omega arith) (omega arith) in
    (omega (arith, whole, rest, same_rest), omega (arith, whole, rest, same_rest))

-- Bit by bit: `&` and `|`.
pub test_bit-bit_and : (a b i : ℕ) → test_bit (bit_and a b) i ≡ (test_bit a i && test_bit b i)
unfolding test_bit
test_bit-bit_and a b zero = ground (arith, (both_parts a b).0, (both_parts a b).1)
test_bit-bit_and a b (suc i) = rw ((both_parts a b).0) (test_bit-bit_and (a / 2) (b / 2) i)

pub test_bit-bit_or : (a b i : ℕ) → test_bit (bit_or a b) i ≡ (test_bit a i || test_bit b i)
unfolding test_bit
test_bit-bit_or a b zero = ground (arith, (any_parts a b).0, (any_parts a b).1)
test_bit-bit_or a b (suc i) = rw ((any_parts a b).0) (test_bit-bit_or (a / 2) (b / 2) i)

pub test_bit-zero : (i : ℕ) → test_bit 0 i ≡ false
unfolding test_bit
test_bit-zero zero = refl
test_bit-zero (suc i) = test_bit-zero i

half-pow : (i : ℕ) → 2 ^ suc i / 2 ≡ 2 ^ i
half-pow i = omega (arith, pow-suc 2 i)

-- `1 << i` has the one bit.
pub test_bit-pow : (i j : ℕ) → test_bit (2 ^ i) j ≡ (i == j)
unfolding test_bit
test_bit-pow zero zero = refl
test_bit-pow zero (suc j) = ground (arith, test_bit-zero j)
test_bit-pow (suc i) zero = ground (arith, pow-suc 2 i)
test_bit-pow (suc i) (suc j) = rw (half-pow i) (ground (arith, test_bit-pow i j))

-- `~x` in `n` bits.
pub test_bit-complement :
    (n x i : ℕ) → x < 2 ^ n → i < n → test_bit (2 ^ n - 1 - x) i ≡ not (test_bit x i)
unfolding test_bit
test_bit-complement zero x i h l = absurd (omega arith)
test_bit-complement (suc n) x zero h l = ground (arith, pow-suc 2 n)
test_bit-complement (suc n) x (suc i) h l =
    rw halves (test_bit-complement n (x / 2) i (omega (arith, pow-suc 2 n)) (omega arith))
  where
    halves : (2 ^ suc n - 1 - x) / 2 ≡ 2 ^ n - 1 - x / 2
    halves = omega (arith, pow-suc 2 n)

-- Two `n`-bit numbers with the same bits are the same.
pub eq_of_bits :
    (n x y : ℕ) → x < 2 ^ n → y < 2 ^ n → ((i : ℕ) → i < n → test_bit x i ≡ test_bit y i) → x ≡ y
unfolding test_bit
eq_of_bits zero x y hx hy h = omega arith
eq_of_bits (suc n) x y hx hy h =
    let high =
      eq_of_bits n (x / 2) (y / 2) (omega (arith, pow-suc 2 n)) (omega (arith, pow-suc 2 n))
        (λ i l. h (suc i) (omega arith)) in
    let low : x % 2 ≡ y % 2 = ground (arith, h 0 (omega arith)) in omega arith

pub bit_and-lt : (n a b : ℕ) → a < 2 ^ n → bit_and a b < 2 ^ n
bit_and-lt zero a b h = let e : a ≡ 0 = omega arith in rw e (omega (arith, none_in_common b))
bit_and-lt (suc n) a b h = omega (
  arith,
  (both_parts a b).0,
  (both_parts a b).1,
  pow-suc 2 n,
  bit_and-lt n (a / 2) (b / 2) (omega (arith, pow-suc 2 n)),
)

pub bit_or-lt : (n a b : ℕ) → a < 2 ^ n → b < 2 ^ n → bit_or a b < 2 ^ n
bit_or-lt zero a b h l = let e : a ≡ 0 = omega arith in rw e (omega (arith, one_side b))
bit_or-lt (suc n) a b h l = omega (
  arith,
  (any_parts a b).0,
  (any_parts a b).1,
  pow-suc 2 n,
  bit_or-lt n (a / 2) (b / 2) (omega (arith, pow-suc 2 n)) (omega (arith, pow-suc 2 n)),
)

bit_and-nil_below : (n a : ℕ) → a ≤ n → bit_and a 0 ≡ 0
bit_and-nil_below n zero h = none_in_common 0
bit_and-nil_below zero (suc a) h = absurd (omega arith)
bit_and-nil_below (suc n) (suc a) h = omega (
  arith,
  (both_parts (suc a) 0).0,
  (both_parts (suc a) 0).1,
  bit_and-nil_below n (suc a / 2) (omega arith),
)

bit_and-nil : (a : ℕ) → bit_and a 0 ≡ 0
bit_and-nil a = bit_and-nil_below a a (omega arith)

-- `x & (1 << i)` is zero exactly when the bit is.
pub bit_and-pow : (x i : ℕ) → (bit_and x (2 ^ i) == 0) ≡ not (test_bit x i)
unfolding test_bit
bit_and-pow x zero = ground (arith, (both_parts x 1).0, (both_parts x 1).1, bit_and-nil (x / 2))
bit_and-pow x (suc i) = ground (
  arith,
  (both_parts x (2 ^ suc i)).0,
  (both_parts x (2 ^ suc i)).1,
  half-pow i,
  pow-suc 2 i,
  bit_and-pow (x / 2) i,
)

-- `x | (1 << i)` and `x & ~(1 << i)` on a byte.
abbrev pub set_bit : ℕ → ℕ → ℕ
set_bit x i = bit_or x (2 ^ i)

abbrev pub clear_bit : ℕ → ℕ → ℕ
clear_bit x i = bit_and x (255 - 2 ^ i)

pub test_bit-set_bit : (x i j : ℕ) → test_bit (set_bit x i) j ≡ (test_bit x j || i == j)
test_bit-set_bit x i j = ground (arith, test_bit-bit_or x (2 ^ i) j, test_bit-pow i j)

pow-lt : (i n : ℕ) → i < n → 2 ^ i < 2 ^ n
pow-lt i zero h = absurd (omega arith)
pow-lt zero (suc n) h = omega (arith, pow-suc 2 n, one-le-pow n 2)
pow-lt (suc i) (suc n) h = omega (arith, pow-suc 2 n, pow-suc 2 i, pow-lt i n (omega arith))

pub pow-lt_byte : (i : ℕ) → i < 8 → 2 ^ i < 256
pow-lt_byte i h = pow-lt i 8 h

pub test_bit-clear_bit :
    (x i j : ℕ) → i < 8 → j < 8 → test_bit (clear_bit x i) j ≡ (test_bit x j && not (i == j))
test_bit-clear_bit x i j hi hj = ground (
  arith,
  test_bit-bit_and x (255 - 2 ^ i) j,
  test_bit-complement 8 (2 ^ i) j (pow-lt i 8 hi) hj,
  test_bit-pow i j,
)

pub set_bit-lt : (x i : ℕ) → x < 256 → i < 8 → set_bit x i < 256
set_bit-lt x i h hi = bit_or-lt 8 x (2 ^ i) h (pow-lt i 8 hi)

pub clear_bit-lt : (x i : ℕ) → x < 256 → clear_bit x i < 256
clear_bit-lt x i h = bit_and-lt 8 x (255 - 2 ^ i) h

-- `for (i : is) if (p(i)) m |= 1 << i;`
unfoldable pub mask_loop : (ℕ → Bool) → List ℕ → ℕ → ℕ
mask_loop p [] m = m
mask_loop p (i ∷ is) m = mask_loop p is (if p i then set_bit m i else m)

-- The eight pins of a device, in the order of the loops over them.
abbrev pub first8 : List ℕ
first8 = 0 ∷ 1 ∷ 2 ∷ 3 ∷ 4 ∷ 5 ∷ 6 ∷ 7 ∷ []

unfoldable pub elem : ℕ → List ℕ → Bool
elem j [] = false
elem j (i ∷ is) = i == j || elem j is

pub elem-first8 : (j : ℕ) → j < 8 → elem j first8 ≡ true
unfolding elem
elem-first8 j h = ground arith

pub test_bit-mask_loop :
    (p : ℕ → Bool) (is : List ℕ) (m j : ℕ)
    → test_bit (mask_loop p is m) j ≡ (test_bit m j || elem j is && p j)
unfolding mask_loop elem
test_bit-mask_loop p [] m j = ground arith
test_bit-mask_loop p (i ∷ is) m j = elim (Bool-cases (p i)) [
  | inl e ↦ rw e (rw (test_bit-mask_loop p is (set_bit m i) j, test_bit-set_bit m i j) (at_pin e))
  | inr e ↦ rw e (rw (test_bit-mask_loop p is m j) (off_pin e))
]
  where
    at_pin :
        p i ≡ true
        → ((test_bit m j || i == j) || elem j is && p j)
          ≡ (test_bit m j || (i == j || elem j is) && p j)
    at_pin e = elim (ℕ_discrete i j) [
      | yes q ↦ rw (← q) (rw e (ground arith))
      | no q ↦ ground arith
    ]

    off_pin :
        p i ≡ false
        → (test_bit m j || elem j is && p j) ≡ (test_bit m j || (i == j || elem j is) && p j)
    off_pin e = elim (ℕ_discrete i j) [
      | yes q ↦ rw (← q) (rw e (ground arith))
      | no q ↦ ground arith
    ]

pub mask_loop-lt :
    (p : ℕ → Bool) (is : List ℕ) (m : ℕ)
    → ((i : ℕ) → elem i is ≡ true → i < 8)
    → m < 256
    → mask_loop p is m < 256
unfolding mask_loop elem
mask_loop-lt p [] m small h = h
mask_loop-lt p (i ∷ is) m small h =
    mask_loop-lt p is _ (λ j e. small j (ground arith))
      (ground (arith, set_bit-lt m i h (small i (ground arith))))

-- The mask of the pins that pass `p`.
abbrev pub mask_of : (ℕ → Bool) → ℕ
mask_of p = mask_loop p first8 0

pub test_bit-mask_of : (p : ℕ → Bool) (j : ℕ) → j < 8 → test_bit (mask_of p) j ≡ p j
test_bit-mask_of p j h =
    ground (arith, test_bit-mask_loop p first8 0 j, elem-first8 j h, test_bit-zero j)

pub mask_of-lt : (p : ℕ → Bool) → mask_of p < 256
unfolding elem
mask_of-lt p = mask_loop-lt p first8 0 (λ i e. ground arith) (omega arith)
