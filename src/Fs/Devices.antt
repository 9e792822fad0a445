-- ===== src/Fs/Devices.antt =====
-- The paths of devices and busses.
use in10dhost.Prelude.{
  ℕ, ◌<◌, ◌≡◌, refl, ap, sym, ◌∙◌, true, false, none, [], ◌∷◌, ◌++◌, Text, codes, all, is_digit,
  arith, same, append-nil,
}
use in10dhost.Prelude.Find.{starts_with, find_text, occurs}
use in10dhost.Numbers.{read_num, starts_digit, int_max}
use in10dhost.Numbers.Decimal.{decimal, starts_decimal, read_num-decimal, all_digits}
use in10dhost.Directory.{elsewhere}
use in10dhost.Fs.{
  Parts, alarm_alias, plugin_name, extract_bus_number, extract_subpath, thrown, fs_getattr, bus_of,
  rel_path, getattr_at, config_attr, pins_or_settings, settings_attr, bus_attr,
}

no_name_in_digits :
    (c : ℕ) (p s : Text) → is_digit c ≡ false → all is_digit s ≡ true → occurs (c ∷ p) s ≡ false
unfolding occurs starts_with all
no_name_in_digits c p [] h a = refl
no_name_in_digits c p (x ∷ xs) h a = ground (arith, no_name_in_digits c p xs)

starts_bus : (n : ℕ) → starts_digit 10 (decimal n) ≡ true
starts_bus n = ap (starts_digit 10) (sym (append-nil (decimal n))) ∙ starts_decimal n []

read_bus : (n : ℕ) → read_num 10 0 (decimal n) ≡ (n, [])
unfolding read_num
read_bus n = ap (read_num 10 0) (sym (append-nil (decimal n))) ∙ read_num-decimal n []

bus_of_thrown : (n : ℕ) → int_max < n → bus_of [] (n, []) ≡ thrown
unfolding bus_of
bus_of_thrown n h = ground arith

bus_thrown : (n : ℕ) → int_max < n → extract_bus_number (codes "bus." ++ decimal n) ≡ thrown
unfolding extract_bus_number find_text starts_with
bus_thrown n h = rw (read_bus n, starts_bus n) (bus_of_thrown n h)

no_settings :
    (n : ℕ)
    → extract_subpath (codes "settings") (codes "bus." ++ decimal n)
      ≡ (false, codes "bus." ++ decimal n)
unfolding extract_subpath occurs starts_with
no_settings n = rw (no_name_in_digits b's' (codes "ettings") (decimal n) refl (all_digits n)) refl

module _ (t : Parts) where
  open t use {St, plugin_attr, leaf_attr, pins_attr}

  settings_thrown :
      (n : ℕ) (s : St) → int_max < n → settings_attr t (codes "bus." ++ decimal n) s ≡ none
  unfolding settings_attr bus_attr
  settings_thrown n s h = rw (no_settings n, bus_thrown n h) refl

  pins_thrown :
      (n : ℕ) (s : St)
      → int_max < n
      → pins_attr (codes "bus." ++ decimal n) s ≡ elsewhere
      → pins_or_settings t (codes "bus." ++ decimal n) s ≡ none
  unfolding pins_or_settings
  pins_thrown n s h hd = rw (pins_or_settings, hd) (settings_thrown n s h)

  config_thrown :
      (n : ℕ) (s : St)
      → int_max < n
      → leaf_attr (codes "bus." ++ decimal n) s ≡ none
      → pins_attr (codes "bus." ++ decimal n) s ≡ elsewhere
      → config_attr t (codes "/bus." ++ decimal n) (codes "bus." ++ decimal n) s ≡ none
  unfolding config_attr plugin_name starts_with
  config_thrown n s h hl hd = rw hl (pins_thrown n s h hd)

  -- Asking for the attributes of /bus.<n>, where n does not fit an int, gives no answer, but
  -- the exception of `std::stoi`, whatever the devices and switches are. This path is no
  -- plugin's file, no leaf and no pin's.
  pub bus_number-thrown :
      (n : ℕ) (s : St)
      → int_max < n
      → plugin_attr (rel_path (codes "bus." ++ decimal n)) s ≡ none
      → leaf_attr (codes "bus." ++ decimal n) s ≡ none
      → pins_attr (codes "bus." ++ decimal n) s ≡ elsewhere
      → fs_getattr t (codes "/bus." ++ decimal n) s ≡ none
  unfolding fs_getattr getattr_at alarm_alias starts_with same
  bus_number-thrown n s h hp hl hd = rw hp (config_thrown n s h hl hd)
