-- ===== src/FsTable/Tests.antt =====
-- Two rows of files, one with aggregates.
use in10dhost.Prelude.{ℕ, ◌≡◌, refl, ◌∷◌, [], codes, true, false, arith, some, none, Option}
use in10dhost.Prelude.Find.{occurs, starts_with, cut}
use in10dhost.FsTable.{FsEntry, agg_all, agg_none, match, instance_name, label}
use in10dhost.FsTable.First.{IsFirstMatch, match-first}

abbrev volts : FsEntry ℕ
volts = record {
  name = codes "volt.*";
  suglen = 8;
  count = 4;
  alpha = true;
  visible = none;
  size_cb = none;
  read = none;
  write = none;
  aggregate = agg_all;
}

abbrev cfg : FsEntry ℕ
cfg = record volts { name = codes "cfg"; count = 0; alpha = false; aggregate = agg_none }

-- Both volt.A and volt.ALL occur in the path.
match-first_example :
    (e : FsEntry ℕ) × (i : Option ℕ) × (k : ℕ) × (match (cfg ∷ volts ∷ []) (codes "/20.11/volt.ALL")
      ≡ some (e, i))
    × IsFirstMatch (cfg ∷ volts ∷ []) (codes "/20.11/volt.ALL") e i k
unfolding instance_name label occurs starts_with cut
match-first_example =
    match-first (cfg ∷ volts ∷ []) 1 volts (some 0) (codes "/20.11/volt.ALL") refl
      (λ e. cc, omega arith) refl
