-- ===== src/Registry/Sorted.antt =====
-- The list by code is a map: in order, and a lookup finds what was put_sorted in.
use in10dhost.Prelude.{
  ℕ, ◌+◌, ◌≤◌, ◌<◌, ◌≡◌, refl, ap, ◌∙◌, Bool, true, false, Option, none, some, List, [], ◌∷◌, ◌++◌,
  length, take, drop, ℕ_discrete, ltb, leb, ◌==◌, if◌then◌else◌, arith, Bool-cases, inl, inr,
}
use in10dhost.Registry.{Device, lower_bound, is_at, add_device, find}

-- In order, from a code on, each code once.
abbrev pub IsSorted : ℕ → List Device → Type 0
IsSorted lo [] = Unit
IsSorted lo (d ∷ ds) = (lo ≤ d.rom_code) × IsSorted (d.rom_code + 1) ds

look : ℕ → List Device → Option ℕ
look code [] = none
look code (d ∷ ds) =
    let rest = look code ds in
    if ltb d.rom_code code then rest else if d.rom_code == code then some d.dev else none

put_sorted : Device → List Device → List Device
put_sorted x [] = x ∷ []
put_sorted x (d ∷ ds) =
    let rest = put_sorted x ds in if ltb d.rom_code x.rom_code then d ∷ rest else x ∷ d ∷ ds

hit : ℕ → List Device → Bool
hit code [] = false
hit code (d ∷ ds) =
    let rest = hit code ds in if ltb d.rom_code code then rest else d.rom_code == code

is_at-lower_bound :
    (code : ℕ) (ds : List Device) → is_at (lower_bound code ds) code ds ≡ hit code ds
unfolding is_at lower_bound hit
is_at-lower_bound code [] = refl
is_at-lower_bound code (d ∷ ds) = elim (Bool-cases (ltb d.rom_code code)) [
  | inl e ↦ rw e (ground (arith, is_at-lower_bound code ds))
  | inr e ↦ rw e (ground arith)
]

find-look : (code : ℕ) (ds : List Device) → find code ds ≡ look code ds
unfolding find look is_at lower_bound
find-look code [] = refl
find-look code (d ∷ ds) = elim (Bool-cases (ltb d.rom_code code)) [
  | inl e ↦ rw e (ground (arith, find-look code ds))
  | inr e ↦ rw e (ground arith)
]

put_sorted-place :
    (x : Device) (ds : List Device)
    → hit x.rom_code ds ≡ false
    → take (lower_bound x.rom_code ds) ds ++ (x ∷ drop (lower_bound x.rom_code ds) ds)
      ≡ put_sorted x ds
unfolding lower_bound put_sorted hit
put_sorted-place x [] h = refl
put_sorted-place x (d ∷ ds) h = elim (Bool-cases (ltb d.rom_code x.rom_code)) [
  | inl e ↦ rw e (ap (λ l. d ∷ l) (put_sorted-place x ds (rw e at h)))
  | inr e ↦ rw e refl
]

add_device-put_sorted :
    (room : ℕ) (x : Device) (ds : List Device)
    → add_device room x ds
      ≡ (if hit x.rom_code ds then ds else if leb room (length ds) then ds else put_sorted x ds)
unfolding add_device
add_device-put_sorted room x ds = elim (Bool-cases (hit x.rom_code ds)) [
  | inl h ↦ rw (is_at-lower_bound x.rom_code ds, h) refl
  | inr h ↦ rw (is_at-lower_bound x.rom_code ds, h, put_sorted-place x ds h) refl
]

put_sorted-IsSorted :
    (lo : ℕ) (x : Device) (ds : List Device)
    → lo ≤ x.rom_code
    → hit x.rom_code ds ≡ false
    → IsSorted lo ds
    → IsSorted lo (put_sorted x ds)
unfolding put_sorted hit
put_sorted-IsSorted lo x [] l h v = (l, tt)
put_sorted-IsSorted lo x (d ∷ ds) l h (k, v) = elim (Bool-cases (ltb d.rom_code x.rom_code)) [
  | inl e ↦ rw e (k, put_sorted-IsSorted (d.rom_code + 1) x ds (ground (arith, e)) (rw e at h) v)
  | inr e ↦ rw e (l, (ground (arith, e, rw e at h), v))
]

look-below : (lo code : ℕ) (ds : List Device) → code < lo → IsSorted lo ds → look code ds ≡ none
unfolding look
look-below lo code [] l v = refl
look-below lo code (d ∷ ds) l (k, v) =
    ground (arith, look-below (d.rom_code + 1) code ds (omega (arith, l, k)) v)

look-put_sorted :
    (lo code : ℕ) (x : Device) (ds : List Device)
    → hit x.rom_code ds ≡ false
    → IsSorted lo ds
    → look code (put_sorted x ds) ≡ (if code == x.rom_code then some x.dev else look code ds)
unfolding look put_sorted hit
look-put_sorted lo code x [] h v = ground arith
look-put_sorted lo code x (d ∷ ds) h (k, v) = elim (Bool-cases (ltb d.rom_code x.rom_code)) [
  | inl e ↦ rw e (ground (arith, look-put_sorted (d.rom_code + 1) code x ds (rw e at h) v, e))
  | inr e ↦ rw e (ground (arith, look-below (d.rom_code + 1) code ds, e, rw e at h))
]

look-hit : (code : ℕ) (ds : List Device) → hit code ds ≡ true → (i : ℕ) × (look code ds ≡ some i)
unfolding look hit
look-hit code [] h = cc
look-hit code (d ∷ ds) h = elim (Bool-cases (ltb d.rom_code code)) [
  | inl e ↦ rw e (look-hit code ds (rw e at h))
  | inr e ↦ (d.dev, rw e (ground (arith, rw e at h)))
]

look_no_hit : (code : ℕ) (ds : List Device) → hit code ds ≡ false → look code ds ≡ none
unfolding look hit
look_no_hit code [] h = refl
look_no_hit code (d ∷ ds) h = elim (Bool-cases (ltb d.rom_code code)) [
  | inl e ↦ rw e (look_no_hit code ds (rw e at h))
  | inr e ↦ rw e (ground (arith, rw e at h))
]

-- What a lookup gives after a device was put_sorted in, where it was there or not.
abbrev pub put_in : Device → Option ℕ → Option ℕ
put_in x none = some x.dev
put_in x (some i) = some i

look_same :
    (code : ℕ) (x : Device) (ds : List Device) (i : ℕ)
    → look x.rom_code ds ≡ some i
    → look code ds ≡ (if code == x.rom_code then put_in x (look code ds) else look code ds)
look_same code x ds i h = elim (ℕ_discrete code x.rom_code) [
  | yes e ↦ rw (e, h) (ground arith)
  | no n ↦ ground (arith, n)
]

look_new :
    (code : ℕ) (x : Device) (ds : List Device)
    → look x.rom_code ds ≡ none
    → (if code == x.rom_code then some x.dev else look code ds)
      ≡ (if code == x.rom_code then put_in x (look code ds) else look code ds)
look_new code x ds h = elim (ℕ_discrete code x.rom_code) [
  | yes e ↦ rw (e, h) refl
  | no n ↦ ground (arith, n)
]

look-add :
    (room code : ℕ) (x : Device) (ds : List Device)
    → IsSorted 0 ds
    → length ds < room
    → look code (add_device room x ds)
      ≡ (if code == x.rom_code then put_in x (look code ds) else look code ds)
look-add room code x ds v l = elim (Bool-cases (hit x.rom_code ds)) [
  | inl h ↦
      let (i, found) = look-hit x.rom_code ds h in
      rw (add_device-put_sorted room x ds, h) (look_same code x ds i found)
  | inr h ↦
      let free : leb room (length ds) ≡ false = ground (arith, l) in
      rw (add_device-put_sorted room x ds, h, free)
        (look-put_sorted 0 code x ds h v ∙ look_new code x ds (look_no_hit x.rom_code ds h))
]

-- `add_device` leaves the list by ROM codes in order, each code once, if it was so before,
-- whether it has room or not.
pub add_device-IsSorted :
    (room : ℕ) (x : Device) (ds : List Device) → IsSorted 0 ds → IsSorted 0 (add_device room x ds)
add_device-IsSorted room x ds v = elim (Bool-cases (hit x.rom_code ds)) [
  | inl h ↦ rw (add_device-put_sorted room x ds, h) v
  | inr h ↦
      rw (add_device-put_sorted room x ds, h)
        (go (leb room (length ds)) (put_sorted-IsSorted 0 x ds (omega arith) h v))
]
  where
    go : (c : Bool) → IsSorted 0 (put_sorted x ds) → IsSorted 0 (if c then ds else put_sorted x ds)
    go true w = v
    go false w = w

-- The list by ROM codes is a map: while it is in order and has room, a lookup after `add_device`
-- gives the device that was put in for its code where there was none, what it gave before where
-- there was one, and what it gave before for every other code.
pub find-add_device :
    (room code : ℕ) (x : Device) (ds : List Device)
    → IsSorted 0 ds
    → length ds < room
    → find code (add_device room x ds)
      ≡ (if code == x.rom_code then put_in x (find code ds) else find code ds)
find-add_device room code x ds v l =
    rw (find-look code (add_device room x ds), find-look code ds) (look-add room code x ds v l)

length-put_sorted : (x : Device) (ds : List Device) → length (put_sorted x ds) ≡ length ds + 1
unfolding put_sorted
length-put_sorted x [] = refl
length-put_sorted x (d ∷ ds) = ground (arith, length-put_sorted x ds)

-- A device with a new code makes the list longer, where there is room.
pub length-add_device :
    (room : ℕ) (x : Device) (ds : List Device)
    → length ds < room
    → find x.rom_code ds ≡ none
    → length (add_device room x ds) ≡ length ds + 1
length-add_device room x ds l h = elim (Bool-cases (hit x.rom_code ds)) [
  | inl there ↦
      let (i, found) = look-hit x.rom_code ds there in
      absurd (ground (arith, found, find-look x.rom_code ds, h))
  | inr free ↦
      let some_room : leb room (length ds) ≡ false = ground (arith, l) in
      rw (add_device-put_sorted room x ds, free, some_room) (length-put_sorted x ds)
]
