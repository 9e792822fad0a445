-- ===== src/Fs/Alarm.antt =====
-- What stands below /alarm.
use in10dhost.Prelude.{ℕ, ◌≡◌, refl, ap, sym, ◌∙◌, false, ◌∷◌, ◌++◌, Text, codes}
use in10dhost.Prelude.Find.{starts_with}
use in10dhost.Switches.Table.{eperm}
use in10dhost.Directory.{failed}
use in10dhost.Fs.{
  Parts, alarm_alias, fs_getattr, fs_open, fs_read, fs_write, fs_create, fs_unlink, plugin_name,
  getattr_at, open_at, read_at, write_at,
}

alias_below : (c : ℕ) (cs : Text) → alarm_alias (codes "/alarm/" ++ (c ∷ cs)) ≡ b'/' ∷ c ∷ cs
unfolding alarm_alias starts_with
alias_below c cs = refl

alias_other : (path : Text) → starts_with (codes "/alarm/") path ≡ false → alarm_alias path ≡ path
unfolding alarm_alias
alias_other path h = rw h refl

alias_same :
    (c : ℕ) (cs : Text)
    → starts_with (codes "/alarm/") (b'/' ∷ c ∷ cs) ≡ false
    → alarm_alias (codes "/alarm/" ++ (c ∷ cs)) ≡ alarm_alias (b'/' ∷ c ∷ cs)
alias_same c cs h = alias_below c cs ∙ sym (alias_other (b'/' ∷ c ∷ cs) h)

module _ (t : Parts) where
  open t use {St}

  -- Below /alarm the attributes, opening, reading and writing are what they are in the root,
  -- for a path that is not empty and not again below /alarm; creating and removing are refused
  -- there, as not permitted.
  pub alarm-same :
      (c size offset : ℕ) (cs buf : Text) (s : St)
      → starts_with (codes "/alarm/") (b'/' ∷ c ∷ cs) ≡ false
      → (fs_getattr t (codes "/alarm/" ++ (c ∷ cs)) s ≡ fs_getattr t (b'/' ∷ c ∷ cs) s)
        × (fs_open t (codes "/alarm/" ++ (c ∷ cs)) s ≡ fs_open t (b'/' ∷ c ∷ cs) s)
        × (fs_read t (codes "/alarm/" ++ (c ∷ cs)) size offset s
            ≡ fs_read t (b'/' ∷ c ∷ cs) size offset s)
        × (fs_write t (codes "/alarm/" ++ (c ∷ cs)) buf s ≡ fs_write t (b'/' ∷ c ∷ cs) buf s)
        × (fs_create t (codes "/alarm/" ++ (c ∷ cs)) s ≡ (failed eperm, s))
        × (fs_unlink t (codes "/alarm/" ++ (c ∷ cs)) s ≡ (failed eperm, s))
  unfolding fs_getattr fs_open fs_read fs_write fs_create fs_unlink plugin_name starts_with
  alarm-same c size offset cs buf s h =
      let e = alias_same c cs h in
      (
        ap (λ p. getattr_at t p s) e,
        ap (λ p. open_at t p s) e,
        ap (λ p. read_at t p size offset s) e,
        ap (λ p. write_at t p buf s) e,
        refl,
        refl,
      )
