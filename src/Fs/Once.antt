-- ===== src/Fs/Once.antt =====
-- The names of a directory's listing.
use in10dhost.Prelude.{
  ◌≡◌, refl, ap, ◌∙◌, Bool, true, false, not, ◌&&◌, ◌||◌, Option, none, some, List, [], ◌∷◌, ◌++◌,
  Text, same, arith, same→eq, Bool-cases, inl, inr,
}
use in10dhost.FsTable.{listed}
use in10dhost.Switches.Table.{Errno}
use in10dhost.Fs.{alarm_alias, rel_path}
use in10dhost.Fs.Listing.{
  Places, both_dots, dir_fill, fill_all, fs_readdir, readdir_builtin, with_plugins,
}

-- No name stands twice.
unfoldable pub distinct : List Text → Bool
distinct [] = true
distinct (n ∷ ns) = not (listed n ns) && distinct ns

same-sym : (xs ys : Text) → same xs ys ≡ same ys xs
unfolding same
same-sym [] [] = refl
same-sym [] (y ∷ ys) = refl
same-sym (x ∷ xs) [] = refl
same-sym (x ∷ xs) (y ∷ ys) = ground (arith, same-sym xs ys)

listed-append : (n m : Text) (ns : List Text) → listed n (ns ++ m ∷ []) ≡ listed n ns || same m n
listed-append n m [] = ground arith
listed-append n m (x ∷ xs) = ground (arith, listed-append n m xs)

distinct-append :
    (ns : List Text) (m : Text)
    → distinct ns ≡ true
    → listed m ns ≡ false
    → distinct (ns ++ m ∷ []) ≡ true
unfolding distinct
distinct-append [] m h k = refl
distinct-append (x ∷ xs) m h k =
    ground (arith, distinct-append xs m, listed-append x m xs, same-sym x m)

dir_fill-distinct :
    (seen : List Text) (n : Text) → distinct seen ≡ true → distinct (dir_fill seen n) ≡ true
dir_fill-distinct seen n h = elim (Bool-cases (listed n seen)) [
  | inl there ↦ rw there h
  | inr new ↦ rw new (distinct-append seen n h new)
]

fill_all-distinct :
    (seen ns : List Text) → distinct seen ≡ true → distinct (fill_all seen ns) ≡ true
unfolding fill_all
fill_all-distinct seen [] h = h
fill_all-distinct seen (n ∷ ns) h =
    fill_all-distinct (dir_fill seen n) ns (dir_fill-distinct seen n h)

listed-same : (n m : Text) (ns : List Text) → same m n ≡ true → listed m ns ≡ listed n ns
listed-same n m ns h = ap (λ x. listed x ns) (same→eq m n h)

listed-dir_fill :
    (n m : Text) (seen : List Text) → listed n (dir_fill seen m) ≡ listed n seen || same m n
listed-dir_fill n m seen = elim (Bool-cases (listed m seen)) [
  | inl there ↦ rw there (elim (Bool-cases (same m n)) [
    | inl k ↦ ground (arith, listed-same n m seen k)
    | inr k ↦ ground arith
  ])
  | inr new ↦ rw new (listed-append n m seen)
]

listed-fill_all :
    (n : Text) (ns seen : List Text) → listed n (fill_all seen ns) ≡ listed n seen || listed n ns
unfolding fill_all
listed-fill_all n [] seen = ground arith
listed-fill_all n (m ∷ ns) seen =
    ground (arith, listed-fill_all n ns (dir_fill seen m), listed-dir_fill n m seen)

listed-behind : (n : Text) (xs ys : List Text) → listed n ys ≡ true → listed n (xs ++ ys) ≡ true
listed-behind n [] ys h = h
listed-behind n (x ∷ xs) ys h = ground (arith, listed-behind n xs ys)

filled :
    (n : Text) (xs ys : List Text) → listed n ys ≡ true → listed n (fill_all [] (xs ++ ys)) ≡ true
filled n xs ys h = listed-fill_all n (xs ++ ys) [] ∙ listed-behind n xs ys h

module _ (d : Places) where
  open d use {St, plugin_files}

  with_plugins-distinct :
      (fs : List Text) (r : Option Errno × List Text × St) → distinct (with_plugins d fs r).1 ≡ true
  unfolding with_plugins
  with_plugins-distinct [] (e, names, s) = fill_all-distinct [] _ (unfold distinct in refl)
  with_plugins-distinct (f ∷ fs) (none, names, s) = fill_all-distinct [] _ (unfold distinct in refl)
  with_plugins-distinct (f ∷ fs) (some e, names, s) =
      fill_all-distinct [] _ (unfold distinct in refl)

  with_plugins-listed :
      (n : Text) (fs : List Text) (r : Option Errno × List Text × St)
      → listed n fs ≡ true
      → listed n (with_plugins d fs r).1 ≡ true
  unfolding with_plugins
  with_plugins-listed n [] r h = ground arith
  with_plugins-listed n (f ∷ fs) (none, names, s) h = filled n names (f ∷ fs) h
  with_plugins-listed n (f ∷ fs) (some e, names, s) h =
      filled n names (both_dots ++ f ∷ fs) (listed-behind n both_dots (f ∷ fs) h)

  -- When the daemon's own listing of a directory ends, with an error or none, `fs_readdir`
  -- gives a listing in which no name stands twice, and each name that the plugins have in that
  -- place stands in it.
  pub fs_readdir-once :
      (path : Text) (s s1 : St) (e : Option Errno) (names : List Text)
      → readdir_builtin d path s ≡ some (e, names, s1)
      → (r : Option Errno × List Text × St) × (fs_readdir d path s ≡ some r)
        × (distinct r.1 ≡ true)
        × ((n : Text)
            → listed n (plugin_files (rel_path (alarm_alias path)) s1) ≡ true
            → listed n r.1 ≡ true)
  unfolding fs_readdir
  fs_readdir-once path s s1 e names h =
      let fs = plugin_files (rel_path (alarm_alias path)) s1 in
      (
        with_plugins d fs (e, names, s1),
        rw (fs_readdir, h) refl,
        with_plugins-distinct fs (e, names, s1),
        λ n k. with_plugins-listed n fs (e, names, s1) k,
      )
