-- ===== src/Leaf/Tests.antt =====
-- A daemon that has never saved.
use in10dhost.Prelude.{
  ℕ, ◌+◌, ◌≡◌, refl, false, none, some, [], ◌∷◌, ◌++◌, codes, length, all, arith,
}
use in10dhost.Prelude.Int.{pos}
use in10dhost.Numbers.{int_max}
use in10dhost.Numbers.Decimal.{decimal}
use in10dhost.FsTable.{text, took}
use in10dhost.Ds2408.Settings.{fitted}
use in10dhost.Leaf.{Daemon, Leaf, Recent, leaf_write, leaf_read}
use in10dhost.Leaf.Interval.{interval_path, interval_written}

abbrev quiet : Recent
quiet = record { count = 0; time = []; last = [] }

abbrev fresh : Daemon
fresh = record {
  St = ℕ;
  save = λ s. (none, s + 1);
  log_save = λ s. ([], s);
  log_dump = λ size s. [];
  version = codes "1.0";
  uptime = λ s. s;
  warnings = λ s. quiet;
  errors = λ s. quiet;
  last_save = λ s. none;
}

abbrev settings : Leaf fresh
settings = record { level = 3; poll = pos 0; save_interval = pos 0; rest = 0 }

interval_written_example :
    (l' : Leaf fresh) × (leaf_write fresh int_max interval_path (decimal 3600 ++ 10 ∷ []) settings
      ≡ some (took (length (decimal 3600 ++ 10 ∷ [])), l'))
    × (leaf_read fresh int_max interval_path 4096 false l'
        ≡ some (text (fitted 4096 (decimal 3600)), l'))
    × (l' ≡ record settings { save_interval = pos 3600 })
unfolding all
interval_written_example =
    interval_written fresh int_max 3600 4096 (10 ∷ []) false settings (omega arith) (omega arith)
      refl
