-- ===== src/Switches/Masked.antt =====
-- What a mask keeps from happening: /switches/disable.
use in10dhost.Prelude.{
  ℕ, ◌≡◌, refl, ◌∙◌, ap, sym, Bool, true, false, [], ◌∷◌, ◌==◌, if◌then◌else◌, arith, Bool-cases,
  inl, inr,
}
use in10dhost.Prelude.Bits.{bit_and-pow, test_bit-set_bit, test_bit-clear_bit}
use in10dhost.Bus.{Bus}
use in10dhost.Switches.Address.{Switch, src_data}
use in10dhost.Switches.Table.{Table}
use in10dhost.Switches.Handler.{Handler, apply_switch, apply_table, all_disabled, all_disabled_set}

unfoldable pub enabled : Table → Table
enabled [] = []
enabled (sw ∷ sws) = if sw.disabled then enabled sws else sw ∷ enabled sws

enabled-masked : (sw : Switch) (t : Table) → sw.disabled ≡ true → enabled (sw ∷ t) ≡ enabled t
unfolding enabled
enabled-masked sw t e = rw e refl

enabled-open : (sw : Switch) (t : Table) → sw.disabled ≡ false → enabled (sw ∷ t) ≡ sw ∷ enabled t
unfolding enabled
enabled-open sw t e = rw e refl

module _ (b : Bus) where
  apply_switch-disabled :
      (sw : Switch) (now : ℕ) (h : Handler b) → sw.disabled ≡ true → apply_switch b sw now h ≡ h
  unfolding apply_switch
  apply_switch-disabled sw now h e = rw e refl

  skip_disabled :
      (c : Bool) (sw : Switch) (now : ℕ) (h : Handler b)
      → sw.disabled ≡ true
      → (if c then apply_switch b sw now h else h) ≡ h
  skip_disabled true sw now h e = apply_switch-disabled sw now h e
  skip_disabled false sw now h e = refl

  -- What a press does with a table is what it does with the table without its masked entries.
  pub apply_table-enabled :
      (src : ℕ) (t : Table) (now : ℕ) (h : Handler b)
      → apply_table b src t now h ≡ apply_table b src (enabled t) now h
  unfolding apply_table enabled
  apply_table-enabled src [] now h = refl
  apply_table-enabled src (sw ∷ sws) now h = elim (Bool-cases sw.disabled) [
    | inl e ↦
        ap (λ k. apply_table b src sws now k) (skip_disabled (src == src_data sw.src) sw now h e)
        ∙ apply_table-enabled src sws now h
        ∙ ap (λ t. apply_table b src t now h) (sym (enabled-masked sw sws e))
    | inr e ↦ rw (enabled-open sw sws e) (apply_table-enabled src sws now _)
  ]

  -- Whether all switches are masked is, after it was set, as it was set.
  pub all_disabled-set : (m : Bool) (h : Handler b) → all_disabled b (all_disabled_set b m h) ≡ m
  unfolding all_disabled all_disabled_set
  all_disabled-set m h = rw (bit_and-pow _ 3) (
      ground (
        arith,
        test_bit-set_bit h.mode 3 3,
        test_bit-clear_bit h.mode 3 3 (omega arith) (omega arith),
      ))
