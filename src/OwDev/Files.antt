-- ===== src/OwDev/Files.antt =====
-- The name that is written to a device.
use in10dhost.Prelude.{
  all_but_last, c_str, take_all, ◌≢◌, ◌<◌, ◌≤◌, ℕ, ◌-◌, true, false, [], ◌∷◌, ◌++◌, Text, codes,
  length, ◌≡◌, refl, arith,
}
use in10dhost.Prelude.Find.{occurs}
use in10dhost.FsTable.{text}
use in10dhost.OwDev.{
  OwDev, write_id, write_poll, write_name, answered, display_name, no_text, wrote, fs_write,
  fs_read,
}

length-c_str : (s : Text) → length (c_str s) ≤ length s
unfolding c_str
length-c_str [] = omega arith
length-c_str (c ∷ cs) = ground (arith, length-c_str cs)

-- A text of two characters or more that is written to a device's name takes its whole size, and
-- reads back without its last character, whatever that is, and up to its first NUL, in a buffer
-- that is longer than what is left. The path has no other leaf's name in it.
pub fs_write-name :
    (l size : ℕ) (d : OwDev) (path s : Text) (c : ℕ)
    → occurs (codes "name") path ≡ true
    → occurs (codes "id") path ≡ false
    → occurs (codes "poll") path ≡ false
    → s ≢ []
    → length s < size
    → let out = fs_write l d path (s ++ c ∷ []) in
      (out.0 ≡ wrote (length (s ++ c ∷ []))) × (fs_read size out.1 path ≡ text (c_str s))
unfolding fs_write fs_read write_id write_poll write_name answered display_name no_text
fs_write-name l size d path [] c hn hi hp ne h = absurd (ne refl)
fs_write-name l size d path (x ∷ s) c hn hi hp ne h =
    rw
      (
        hn,
        hi,
        hp,
        all_but_last (x ∷ s) c,
        take_all (size - 1) (c_str (x ∷ s)) (omega (arith, length-c_str (x ∷ s))),
      )
      (refl, refl)
