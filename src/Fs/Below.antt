-- ===== src/Fs/Below.antt =====
-- The paths of the devices' files, below a bus.
use in10dhost.Prelude.{
  ℕ, ◌<◌, ◌≡◌, refl, ap, sym, ◌∙◌, Bool, true, false, none, some, [], ◌∷◌, ◌++◌, Text, codes,
  length, take, drop, all, is_digit, length-append, ltb, leb, arith,
}
use in10dhost.Prelude.Find.{starts_with, find_text, occurs, cut}
use in10dhost.Numbers.{read_num, starts_digit, digit_of}
use in10dhost.Numbers.Decimal.{decimal, starts_decimal, read_num-decimal, read_num_stop, all_digits}
use in10dhost.Directory.{FsAnswer, elsewhere, failed}
use in10dhost.Switches.Table.{enoent}
use in10dhost.Fs.{
  Parts, extract_bus_number, extract_subpath, extract_rom, unslashed, remove_slash, bus_of, on_bus,
  read_device, read_switches, read_busses, read_rom, is_slash, fs_read, is_file, read_at, read_leaf,
  alarm_alias, plugin_name,
}

occurs-digits :
    (c : ℕ) (p s t : Text)
    → is_digit c ≡ false
    → all is_digit s ≡ true
    → occurs (c ∷ p) (s ++ t) ≡ occurs (c ∷ p) t
unfolding occurs starts_with all
occurs-digits c p [] t h a = refl
occurs-digits c p (x ∷ xs) t h a = ground (arith, occurs-digits c p xs t)

switches_below :
    (n : ℕ) (q : Text)
    → occurs (codes "switches") (codes "bus." ++ (decimal n ++ b'/' ∷ q))
      ≡ occurs (codes "switches") q
unfolding occurs starts_with
switches_below n q = occurs-digits b's' (codes "witches") (decimal n) (b'/' ∷ q) refl (all_digits n)

uncached_below :
    (n : ℕ) (q : Text)
    → occurs (codes "uncached") (codes "bus." ++ (decimal n ++ b'/' ∷ q))
      ≡ occurs (codes "uncached") q
unfolding occurs starts_with
uncached_below n q = occurs-digits b'u' (codes "ncached") (decimal n) (b'/' ∷ q) refl (all_digits n)

no_part : (part path : Text) → occurs part path ≡ false → extract_subpath part path ≡ (false, path)
unfolding extract_subpath
no_part part path h = rw h refl

read_below : (n : ℕ) (q : Text) → read_num 10 0 (decimal n ++ b'/' ∷ q) ≡ (n, b'/' ∷ q)
unfolding starts_digit digit_of
read_below n q = read_num-decimal n (b'/' ∷ q) ∙ read_num_stop 10 n (b'/' ∷ q) refl

bus_of_few : (n : ℕ) (q : Text) → n < 4 → bus_of [] (n, b'/' ∷ q) ≡ on_bus n q
unfolding bus_of
bus_of_few n q h = ground arith

pub extract_bus_number-below :
    (n : ℕ) (q : Text)
    → n < 4
    → extract_bus_number (codes "bus." ++ (decimal n ++ b'/' ∷ q)) ≡ on_bus n q
unfolding extract_bus_number find_text starts_with
extract_bus_number-below n q h = rw (starts_decimal n (b'/' ∷ q), read_below n q) (bus_of_few n q h)

cut_slash : (s t : Text) → cut b'/' s ≡ none → cut b'/' (s ++ b'/' ∷ t) ≡ some (s, t)
unfolding cut
cut_slash [] t h = refl
cut_slash (x ∷ xs) t h = ground (arith, cut_slash xs t)

take_all : (s t : Text) → take (length s) (s ++ t) ≡ s
take_all [] t = refl
take_all (x ∷ xs) t = rw (take_all xs t) refl

drop_all : (s t : Text) → drop (length s) (s ++ t) ≡ t
drop_all [] t = refl
drop_all (x ∷ xs) t = drop_all xs t

remove_slash_at : (s t : Text) → cut b'/' s ≡ none → remove_slash (s ++ b'/' ∷ t) ≡ s ++ t
unfolding remove_slash
remove_slash_at s t h = rw (remove_slash, cut_slash s t h) refl

first_kept : (a : ℕ) (s : Text) → cut b'/' (a ∷ s) ≡ none → is_slash a ≡ false
unfolding cut
first_kept a s h = ground arith

unslashed-rom :
    (a : ℕ) (s t : Text) → cut b'/' (a ∷ s) ≡ none → unslashed ((a ∷ s) ++ b'/' ∷ t) ≡ (a ∷ s) ++ t
unfolding unslashed
unslashed-rom a s t h = rw (first_kept a s h) (remove_slash_at (a ∷ s) t h)

dot_third :
    (a b : ℕ) (s : Text)
    → cut b'.' (a ∷ b ∷ []) ≡ none
    → find_text (codes ".") (a ∷ b ∷ b'.' ∷ s) ≡ some 2
unfolding find_text starts_with cut
dot_third a b s h = ground arith

leb-ltb : (k n : ℕ) → ltb k n ≡ true → leb k n ≡ true
leb-ltb k n h = ground arith

take_serial : (k : ℕ) (s t : Text) → length s ≡ k → take k (s ++ t) ≡ s
take_serial k s t h = rw (sym h) (take_all s t)

drop_serial : (k : ℕ) (s t : Text) → length s ≡ k → drop k (s ++ t) ≡ t
drop_serial k s t h = rw (sym h) (drop_all s t)

longer_than_rom :
    (k : ℕ) (s : Text) (c : ℕ) (cs : Text) → length s ≡ k → ltb k (length (s ++ c ∷ cs)) ≡ true
longer_than_rom k s c cs h = ground (arith, length-append s (c ∷ cs))

pub extract_rom-below :
    (a b : ℕ) (serial : Text) (c : ℕ) (cs : Text)
    → cut b'/' (a ∷ b ∷ b'.' ∷ serial) ≡ none
    → cut b'.' (a ∷ b ∷ []) ≡ none
    → length serial ≡ 14
    → extract_rom ((a ∷ b ∷ b'.' ∷ serial) ++ b'/' ∷ c ∷ cs)
      ≡ (some (a ∷ b ∷ b'.' ∷ serial), c ∷ cs)
unfolding extract_rom
extract_rom-below a b serial c cs hs hd hl =
    let longer = longer_than_rom 17 (a ∷ b ∷ b'.' ∷ serial) c cs (omega (arith, hl)) in
    rw (unslashed-rom a (b ∷ b'.' ∷ serial) (c ∷ cs) hs, dot_third a b (serial ++ c ∷ cs) hd)
      (rw
        (
          longer,
          leb-ltb _ _ longer,
          take_serial 14 serial (c ∷ cs) hl,
          drop_serial 14 serial (c ∷ cs) hl,
        )
        refl)

-- "bus.<n>/<ROM>/<file>".
abbrev pub file_path : ℕ → ℕ → ℕ → Text → Text → Text
file_path n a b serial file =
    codes "bus." ++ (decimal n ++ b'/' ∷ ((a ∷ b ∷ b'.' ∷ serial) ++ b'/' ∷ file))

module _ (t : Parts) where
  open t use {St, plugin_attr, pins_read, leaf_read, device_read}

  read_rom-found :
      (uncached : Bool) (size : ℕ) (rom f : Text) (s : St) (answer : FsAnswer Text × St)
      → device_read rom f size uncached s ≡ some answer
      → read_rom t uncached size (some rom, f) s ≡ answer
  unfolding read_rom
  read_rom-found uncached size rom f s answer h =
      ap (λ d. elim d [ none ↦ (failed enoent, s) | some a ↦ a ]) h

  read_device-below :
      (n size : ℕ) (q rom f : Text) (s : St) (answer : FsAnswer Text × St)
      → n < 4
      → occurs (codes "switches") q ≡ false
      → occurs (codes "uncached") q ≡ false
      → extract_rom q ≡ (some rom, f)
      → device_read rom f size false s ≡ some answer
      → read_device t (codes "bus." ++ (decimal n ++ b'/' ∷ q)) size s ≡ some answer
  unfolding read_device read_switches read_busses read_rom
  read_device-below n size q rom f s answer h hw hu hr hd =
      let path = codes "bus." ++ (decimal n ++ b'/' ∷ q) in
      ap (λ x. read_switches t x size s) (no_part (codes "switches") path (switches_below n q ∙ hw))
      ∙ ap (λ x. read_busses t x size s) (no_part (codes "uncached") path (uncached_below n q ∙ hu))
      ∙ rw (read_busses, extract_bus_number-below n q h, hr)
          (ap some (read_rom-found false size rom f s answer hd))

  read_leaf-below :
      (n size : ℕ) (q : Text) (s s1 : St)
      → leaf_read (codes "bus." ++ (decimal n ++ b'/' ∷ q)) size s ≡ (elsewhere, s1)
      → read_leaf t
          (codes "/bus." ++ (decimal n ++ b'/' ∷ q))
          (codes "bus." ++ (decimal n ++ b'/' ∷ q))
          size
          s
        ≡ read_device t (codes "bus." ++ (decimal n ++ b'/' ∷ q)) size s
  unfolding read_leaf plugin_name starts_with
  read_leaf-below n size q s s1 h = rw (read_leaf, h) refl

  -- Reading /bus.<n>/<ROM>/<file>, for a bus below 4, gives the answer of the device with that
  -- ROM for that file, which it is asked for as not uncached. The ROM is two characters other
  -- than a dot, a dot, and 14 more, with no slash; the file's name is not empty; neither
  -- `switches` nor `uncached` occurs in them. The path is no plugin's file, no pin's and no
  -- leaf.
  pub read-below :
      (n size offset a b : ℕ) (serial : Text) (c : ℕ) (cs : Text) (s : St)
      (answer : FsAnswer Text × St)
      → n < 4
      → cut b'/' (a ∷ b ∷ b'.' ∷ serial) ≡ none
      → cut b'.' (a ∷ b ∷ []) ≡ none
      → length serial ≡ 14
      → occurs (codes "switches") ((a ∷ b ∷ b'.' ∷ serial) ++ b'/' ∷ c ∷ cs) ≡ false
      → occurs (codes "uncached") ((a ∷ b ∷ b'.' ∷ serial) ++ b'/' ∷ c ∷ cs) ≡ false
      → is_file (plugin_attr (file_path n a b serial (c ∷ cs)) s) ≡ false
      → pins_read (file_path n a b serial (c ∷ cs)) size offset s ≡ elsewhere
      → leaf_read (file_path n a b serial (c ∷ cs)) size s ≡ (elsewhere, s)
      → device_read (a ∷ b ∷ b'.' ∷ serial) (c ∷ cs) size false s ≡ some answer
      → fs_read t (b'/' ∷ file_path n a b serial (c ∷ cs)) size offset s ≡ some answer
  unfolding fs_read read_at alarm_alias starts_with
  read-below n size offset a b serial c cs s answer h hs hd hl hw hu hp hi hf hr =
      let q = (a ∷ b ∷ b'.' ∷ serial) ++ b'/' ∷ c ∷ cs in
      rw (hp, hi)
        (read_leaf-below n size q s s hf
          ∙ read_device-below n size q (a ∷ b ∷ b'.' ∷ serial) (c ∷ cs) s answer h hw hu
              (extract_rom-below a b serial c cs hs hd hl) hr)
