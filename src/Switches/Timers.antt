-- ===== src/Switches/Timers.antt =====
-- The running off timers, `std::map<uint16_t, time_point>`: deadlines by target, in the order of the
-- targets' 16 bits.
use in10dhost.Prelude.{
  ℕ, ◌+◌, ◌/◌, ◌%◌, ◌≡◌, ◌<◌, ◌≤◌, refl, Option, none, some, List, [], ◌∷◌, ltb, leb, ◌==◌,
  if◌then◌else◌, arith, length, suc,
}
use in10dhost.Switches.Address.{DstAdr, IsDstAdr, dst_data}

abbrev pub TimerMap : Type 0
TimerMap = List (ℕ × ℕ)

unfoldable pub insert : ℕ → ℕ → TimerMap → TimerMap
insert k v [] = (k, v) ∷ []
insert k v ((j, w) ∷ m) =
    if k == j then (k, v) ∷ m else if ltb k j then (k, v) ∷ (j, w) ∷ m else (j, w) ∷ insert k v m

unfoldable pub lookup : ℕ → TimerMap → Option ℕ
lookup k [] = none
lookup k ((j, w) ∷ m) = if k == j then some w else lookup k m

unfoldable pub erase : ℕ → TimerMap → TimerMap
erase k [] = []
erase k ((j, w) ∷ m) = if k == j then m else (j, w) ∷ erase k m

-- `p.data = key`
unfoldable pub of_data : ℕ → DstAdr
of_data k = record { pio = k % 8; adr = k / 8 % 256; bus = k / 2048 % 8; type = k / 16384 % 4 }

-- The target that is read from the 16 bits of a target, whose fields keep their widths, is that
-- target.
pub of_data-dst_data : (p : DstAdr) → IsDstAdr p → of_data (dst_data p) ≡ p
unfolding of_data dst_data
of_data-dst_data p v = ground arith

-- The timers that are due at `now`, and those that are not: the loop of `timer_poll`.
unfoldable pub expired : ℕ → TimerMap → List ℕ
expired now [] = []
expired now ((k, d) ∷ m) = let rest = expired now m in if leb d now then k ∷ rest else rest

unfoldable pub pending : ℕ → TimerMap → TimerMap
pending now [] = []
pending now ((k, d) ∷ m) = let rest = pending now m in if leb d now then rest else (k, d) ∷ rest

-- Keys rise along the map, and stay above a bound.
abbrev pub Above : ℕ → TimerMap → Type 0
Above b [] = Unit {0}
Above b ((k, d) ∷ m) = (b ≤ k) × Above (suc k) m

Above-mono : (a b : ℕ) (m : TimerMap) → a ≤ b → Above b m → Above a m
Above-mono a b [] h v = tt
Above-mono a b ((k, d) ∷ m) h v = (omega arith, v.1)

lookup-Above : (k b : ℕ) (m : TimerMap) → k < b → Above b m → lookup k m ≡ none
unfolding lookup
lookup-Above k b [] h v = refl
lookup-Above k b ((j, w) ∷ m) h v = ground (arith, lookup-Above k (suc j) m)

pub insert-Above : (b k d : ℕ) (m : TimerMap) → b ≤ k → Above b m → Above b (insert k d m)
unfolding insert
insert-Above b k d [] h v = (h, tt)
insert-Above b k d ((j, w) ∷ m) h v =
    ground (arith, insert-Above (suc j) k d m, Above-mono (suc k) (suc j) m)

pub erase-Above : (b k : ℕ) (m : TimerMap) → Above b m → Above b (erase k m)
unfolding erase
erase-Above b k [] v = tt
erase-Above b k ((j, w) ∷ m) v = ground (arith, erase-Above (suc j) k m v.1, Above-mono b (suc j) m)

pub pending-Above : (b now : ℕ) (m : TimerMap) → Above b m → Above b (pending now m)
unfolding pending
pending-Above b now [] v = tt
pending-Above b now ((j, w) ∷ m) v =
    ground (arith, pending-Above (suc j) now m v.1, Above-mono b (suc j) (pending now m))

pub lookup-insert :
    (j k d : ℕ) (m : TimerMap) → lookup j (insert k d m) ≡ (if j == k then some d else lookup j m)
unfolding lookup insert
lookup-insert j k d [] = refl
lookup-insert j k d ((i, w) ∷ m) = ground (arith, lookup-insert j k d m)

pub lookup-erase :
    (b j k : ℕ) (m : TimerMap)
    → Above b m
    → lookup j (erase k m) ≡ (if j == k then none else lookup j m)
unfolding lookup erase
lookup-erase b j k [] v = ground arith
lookup-erase b j k ((i, w) ∷ m) v =
    ground (arith, lookup-erase (suc i) j k m v.1, lookup-Above k (suc i) m)

-- What is left after a poll: the deadlines that lie ahead.
pub lookup-pending :
    (b j now : ℕ) (m : TimerMap)
    → Above b m
    → lookup j (pending now m)
      ≡ elim (lookup j m) [ none ↦ none | some d ↦ if leb d now then none else some d ]
unfolding lookup pending
lookup-pending b j now [] v = refl
lookup-pending b j now ((i, w) ∷ m) v =
    ground (arith, lookup-pending (suc i) j now m v.1, lookup-Above j (suc i) m)

pub length-expired :
    (now : ℕ) (m : TimerMap) → length (expired now m) + length (pending now m) ≡ length m
unfolding expired pending
length-expired now [] = refl
length-expired now ((k, d) ∷ m) = ground (arith, length-expired now m)
