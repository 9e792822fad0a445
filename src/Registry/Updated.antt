-- ===== src/Registry/Updated.antt =====
-- `update_data`: every device that stays is found by its code.
use in10dhost.Prelude.{
  ℕ, zero, suc, ◌+◌, ◌≤◌, ◌<◌, ◌≡◌, refl, sym, ap, subst, ◌∙◌, none, some, List, [], ◌∷◌, ◌++◌,
  length, get_elem?, set, get_or, arith, Option-cases, inl, inr, ◌⊎◌, length-snoc,
}
use in10dhost.OwDev.{OwDev}
use in10dhost.Registry.{Registry, Device, find, add_device, register, update_data}
use in10dhost.Registry.Sorted.{IsSorted, find-add_device, add_device-IsSorted, length-add_device}

-- The list holds the devices, each by its code.
pub record IsIndexed (r : Registry) : Type 0 where
  pub sorted : IsSorted 0 r.dev_list
  pub counted : length r.dev_list ≡ length r.devices
  pub found :
      (k : ℕ) (d : OwDev) → get_elem? r.devices k ≡ some d → find d.rom_code r.dev_list ≡ some k

get_elem?-snoc :
    (xs : List OwDev) (x : OwDev) (k : ℕ) (d : OwDev)
    → get_elem? (xs ++ x ∷ []) k ≡ some d
    → (get_elem? xs k ≡ some d) ⊎ ((k ≡ length xs) × (x ≡ d))
get_elem?-snoc [] x zero d h = inr (refl, cc)
get_elem?-snoc [] x (suc k) d h = cc
get_elem?-snoc (y ∷ ys) x zero d h = inl h
get_elem?-snoc (y ∷ ys) x (suc k) d h = elim (get_elem?-snoc ys x k d h) [
  | inl e ↦ inl e
  | inr (e, f) ↦ inr (ap suc e, f)
]

-- A lookup after a device with a new code was put in.
found_new :
    (room : ℕ) (x : Device) (ds : List Device)
    → IsSorted 0 ds
    → length ds < room
    → find x.rom_code ds ≡ none
    → find x.rom_code (add_device room x ds) ≡ some x.dev
found_new room x ds v l h = find-add_device room x.rom_code x ds v l ∙ rw h (ground arith)

found_old :
    (room code i : ℕ) (x : Device) (ds : List Device)
    → IsSorted 0 ds
    → length ds < room
    → find x.rom_code ds ≡ none
    → find code ds ≡ some i
    → find code (add_device room x ds) ≡ some i
found_old room code i x ds v l h f = find-add_device room code x ds v l ∙ rw f (ground arith)

-- The registry with one more device.
abbrev more : ℕ → OwDev → List (List ℕ) → Registry → Registry
more room d bs r = record {
  devices = r.devices ++ d ∷ [];
  dev_list = add_device room (record { rom_code = d.rom_code; dev = length r.devices }) r.dev_list;
  busses = bs;
}

more-IsIndexed :
    (room : ℕ) (d : OwDev) (bs : List (List ℕ)) (r : Registry)
    → IsIndexed r
    → length r.devices < room
    → find d.rom_code r.dev_list ≡ none
    → IsIndexed (more room d bs r)
more-IsIndexed room d bs r v l h =
    let x : Device = record { rom_code = d.rom_code; dev = length r.devices } in
    let lt : length r.dev_list < room = omega (arith, l, v.counted) in
    record {
      sorted = add_device-IsSorted room x r.dev_list v.sorted;
      counted =
          ground
            (arith, length-add_device room x r.dev_list lt h, length-snoc r.devices d, v.counted);
      found = λ k e at. elim (get_elem?-snoc r.devices d k e at) [
        | inl old ↦ found_old room e.rom_code k x r.dev_list v.sorted lt h (v.found k e old)
        | inr (last, same) ↦
            subst (λ (z : OwDev). find z.rom_code (add_device room x r.dev_list) ≡ some k) same
              (found_new room x r.dev_list v.sorted lt h ∙ ap some (sym last))
      ];
    }

register-IsIndexed :
    (room : ℕ) (ds : List OwDev) (r : Registry)
    → IsIndexed r
    → length r.devices + length ds ≤ room
    → IsIndexed (register room ds r)
unfolding register
register-IsIndexed room [] r v l = v
register-IsIndexed room (d ∷ ds) r v l = elim (Option-cases (find d.rom_code r.dev_list)) [
  | inl new ↦
      let bs = set r.busses d.bus (get_or r.busses d.bus [] ++ length r.devices ∷ []) in
      rw new (
        register-IsIndexed room ds (more room d bs r)
          (more-IsIndexed room d bs r v (omega (arith, l)) new)
          (omega (arith, l, length-snoc r.devices d)))
  | inr (i, there) ↦ rw there (register-IsIndexed room ds r v (omega (arith, l)))
]

-- After `update_data` the list by ROM codes is in order, as long as the list of the devices that
-- stay, and gives each of these for its code, so that no code is there twice. There are no more
-- devices before than the list has room for.
pub update_data-IsIndexed :
    (room max_bus : ℕ) (r : Registry)
    → length r.devices ≤ room
    → IsIndexed (update_data room max_bus r)
unfolding update_data
update_data-IsIndexed room max_bus r l =
    register-IsIndexed room r.devices _
      (record { sorted = tt; counted = refl; found = λ k d h. cc }) (omega (arith, l))
