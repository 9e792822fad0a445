-- ===== src/Leaf/Interval.antt =====
-- settings/save_interval: what is accepted, and what it reads as afterwards.
use in10dhost.Prelude.{
  ℕ, ◌≤◌, ◌≡◌, refl, ap, Bool, true, false, some, [], ◌∷◌, ◌++◌, Text, codes, length, all, arith,
  is_space, drop_while_none, ◌∙◌,
}
use in10dhost.Prelude.Int.{pos}
use in10dhost.Prelude.Find.{occurs, starts_with}
use in10dhost.Numbers.{stol, check_long, read_sign, skip_prefix, starts_digit, digit_of, read_num}
use in10dhost.Numbers.Decimal.{decimal, starts_decimal, read_num-decimal, read_num_stop}
use in10dhost.FsTable.{text, took, match, match_row, tries, read_file, write_file}
use in10dhost.Ds2408.Settings.{ends_input, fitted}
use in10dhost.Leaf.{
  Daemon, Leaf, day, interval_of, w_save_interval, leaf_read, leaf_write, table, int_text,
}

solid :
    (c : ℕ) (cs : Text)
    → starts_digit 10 (c ∷ cs) ≡ true
    → (is_space c ≡ false) × (read_sign (c ∷ cs) ≡ (false, c ∷ cs))
unfolding starts_digit digit_of read_sign
solid c cs h = ground arith

skip_decimal : (s : Text) → skip_prefix 10 s ≡ s
unfolding skip_prefix
skip_decimal [] = refl
skip_decimal (c ∷ []) = refl
skip_decimal (c ∷ x ∷ cs) = refl

stol_digits :
    (l : ℕ) (s : Text)
    → starts_digit 10 s ≡ true
    → stol l 10 s ≡ check_long l false (read_num 10 0 s)
unfolding stol starts_digit
stol_digits l [] h = cc h
stol_digits l (c ∷ cs) h =
    rw (drop_while_none is_space c cs (solid c cs h).0, (solid c cs h).1, skip_decimal (c ∷ cs), h)
      refl

no_digit_ends : (ends : Text) → all ends_input ends ≡ true → starts_digit 10 ends ≡ false
unfolding all starts_digit digit_of
no_digit_ends [] h = refl
no_digit_ends (c ∷ cs) h = ground arith

interval_of-decimal :
    (l n : ℕ) (ends : Text)
    → n ≤ day
    → day ≤ l
    → all ends_input ends ≡ true
    → interval_of (stol l 10 (decimal n ++ ends)) ≡ some n
unfolding interval_of check_long
interval_of-decimal l n ends hn hl he =
    rw
      (
        stol_digits l (decimal n ++ ends) (starts_decimal n ends),
        read_num-decimal n ends,
        read_num_stop 10 n ends (no_digit_ends ends he),
      )
      (ground arith)

abbrev pub interval_path : Text
interval_path = codes "/settings/save_interval"

module _ (m : Daemon) (long_max : ℕ) where
  write_row :
      (buf : Text) (l : Leaf m)
      → leaf_write m long_max interval_path buf l ≡ some (w_save_interval m long_max buf l)
  unfolding leaf_write write_file match match_row tries table occurs starts_with
  write_row buf l = refl

  read_row :
      (size : ℕ) (uncached : Bool) (l : Leaf m)
      → leaf_read m long_max interval_path size uncached l
        ≡ some (text (fitted size (int_text l.save_interval)), l)
  unfolding leaf_read read_file match match_row tries table occurs starts_with
  read_row size uncached l = refl

  accepted :
      (buf : Text) (n : ℕ) (l : Leaf m)
      → interval_of (stol long_max 10 buf) ≡ some n
      → w_save_interval m long_max buf l ≡ (took (length buf), record l { save_interval = pos n })
  unfolding w_save_interval
  accepted buf n l h = rw (h, w_save_interval) refl

  -- A number of seconds up to a day that is written to settings/save_interval in decimal
  -- digits, with line ends and NULs behind it, takes its whole size, changes nothing but the
  -- interval, and is what the same file reads then, as far as the buffer goes. A long holds a
  -- day at least.
  pub interval_written :
      (n size : ℕ) (ends : Text) (uncached : Bool) (l : Leaf m)
      → n ≤ day
      → day ≤ long_max
      → all ends_input ends ≡ true
      → (l' : Leaf m) × (leaf_write m long_max interval_path (decimal n ++ ends) l
          ≡ some (took (length (decimal n ++ ends)), l'))
        × (leaf_read m long_max interval_path size uncached l'
            ≡ some (text (fitted size (decimal n)), l'))
        × (l' ≡ record l { save_interval = pos n })
  unfolding int_text
  interval_written n size ends uncached l hn hl he = (
    record l { save_interval = pos n },
    write_row (decimal n ++ ends) l
        ∙ ap some (accepted (decimal n ++ ends) n l (interval_of-decimal long_max n ends hn hl he)),
    read_row size uncached (record l { save_interval = pos n }),
    refl,
  )
