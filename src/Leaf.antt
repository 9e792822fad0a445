-- ===== src/Leaf.antt =====
-- src/fs_leaf.cpp: the files under /settings and /status. What the registry, the log and the clock
-- answer are parameters.
pub mod Interval
mod Tests
use in10dhost.Prelude.{
  ℕ, ◌+◌, ◌*◌, ◌%◌, Bool, true, false, ◌&&◌, ◌||◌, not, Option, none, some, List, [], ◌∷◌, ◌++◌,
  Text, codes, length, ltb, ◌==◌, if◌then◌else◌, all, c_str,
}
use in10dhost.Prelude.Int.{ℤ, pos, negsuc}
use in10dhost.Numbers.{NumResult, ok, err, stol}
use in10dhost.Numbers.Decimal.{decimal}
use in10dhost.Parse.{parse_num}
use in10dhost.Switches.Line.{low_byte}
use in10dhost.Switches.Table.{Errno, einval, eio}
use in10dhost.FsTable.{
  FsEntry, agg_none, Reply, text, took, error, dir, attr, open_row, read_file, write_file,
}
use in10dhost.Ds2408.Settings.{ends_input, fitted}

-- `Logger::Recent`: how many, the text of the time of the last one, and its message.
pub record Recent : Type 0 where
  pub count : ℕ
  pub time : Text
  pub last : Text

-- What the leaves reach. `none` of `last_save` is a save that never was; `time` texts are those of
-- `local_time`.
pub record Daemon : Type 1 where
  pub St : Type 0
  pub save : St → Option Errno × St
  pub log_save : St → Text × St
  pub log_dump : ℕ → St → Text
  pub version : Text
  pub uptime : St → ℕ
  pub warnings : St → Recent
  pub errors : St → Recent
  pub last_save : St → Option Text

pub record Leaf (m : Daemon) : Type 0 where
  pub level : ℕ
  pub poll : ℤ
  pub save_interval : ℤ
  pub rest : Daemon.St m

-- "%d"
unfoldable pub int_text : ℤ → Text
int_text (pos n) = decimal n
int_text (negsuc n) = b'-' ∷ decimal (n + 1)

unfoldable pub recent_line : Recent → Text
recent_line r = if r.count == 0 then codes "-" else r.time ++ (b' ' ∷ r.last)

-- A day, the longest interval.
abbrev pub day : ℕ
day = 24 * 3600

-- A number, with line ends and NULs behind it, from 0 to a day.
unfoldable pub interval_of : NumResult (ℤ × Text) → Option ℕ
interval_of (err e) = none
interval_of (ok (negsuc n, rest)) = none
interval_of (ok (pos n, rest)) = if not (all ends_input rest) || ltb day n then none else some n

module _ (m : Daemon) where
  open m use {St, save, log_save, log_dump, version, uptime, warnings, errors, last_save}

  unfoldable pub health_text : Leaf m → Text
  health_text l =
      codes "uptime "
      ++ (decimal (uptime l.rest)
          ++ (10 ∷ codes "warnings "
              ++ (decimal (warnings l.rest).count
                  ++ (10 ∷ codes "errors "
                      ++ (decimal (errors l.rest).count
                          ++ (10 ∷ codes "last_warning "
                              ++ (recent_line (warnings l.rest)
                                  ++ (10 ∷ codes "last_error "
                                      ++ (recent_line (errors l.rest)
                                          ++ (10 ∷ codes "last_save "
                                              ++ (elim (last_save l.rest) [
                                                | none ↦ codes "-"
                                                | some t ↦ t
                                              ]
                                                  ++ 10 ∷ [])))))))))))

  abbrev pub version_text : Text
  version_text = version ++ 10 ∷ []

  module _ (long_max : ℕ) where
    unfoldable pub w_log : Text → Leaf m → Reply × Leaf m
    w_log buf l = elim (parse_num long_max buf) [
      | err e ↦ (error einval, l)
      | ok (negsuc n) ↦ (error einval, l)
      | ok (pos n) ↦
          if ltb 8 n then (error einval, l) else (took (length buf), record l { level = n })
    ]

    unfoldable pub w_poll : Text → Leaf m → Reply × Leaf m
    w_poll buf l = elim (parse_num long_max buf) [
      | err e ↦ (error einval, l)
      | ok v ↦ (took (length buf), record l { poll = pos (low_byte v) })
    ]

    unfoldable pub w_save : Text → Leaf m → Reply × Leaf m
    w_save buf l =
        let (r, s) = save l.rest in
        (elim r [ none ↦ took (length buf) | some e ↦ error e ], record l { rest = s })

    unfoldable pub w_save_interval : Text → Leaf m → Reply × Leaf m
    w_save_interval buf l = elim (interval_of (stol long_max 10 buf)) [
      | none ↦ (error einval, l)
      | some n ↦ (took (length buf), record l { save_interval = pos n })
    ]

    no_text : Text → Bool
    no_text [] = true
    no_text (c ∷ cs) = false

    unfoldable pub w_1wire_save : Text → Leaf m → Reply × Leaf m
    unfolding no_text
    w_1wire_save buf l =
        let (path, s) = log_save l.rest in
        (if no_text path then error eio else took (length buf), record l { rest = s })

    reads : (ℕ → Leaf m → Text) → Option (ℕ → Bool → Option ℕ → Leaf m → Reply × Leaf m)
    reads f = some (λ size uncached i l. (text (f size l), l))

    writes : (Text → Leaf m → Reply × Leaf m) → Option (Text → Option ℕ → Leaf m → Reply × Leaf m)
    writes f = some (λ buf i l. f buf l)

    row :
        Text
        → ℕ
        → Option (Leaf m → ℕ)
        → Option (ℕ → Bool → Option ℕ → Leaf m → Reply × Leaf m)
        → Option (Text → Option ℕ → Leaf m → Reply × Leaf m)
        → FsEntry (Leaf m)
    row name suglen size read write = record {
      name = name;
      suglen = suglen;
      count = 0;
      alpha = false;
      visible = none;
      size_cb = elim size [ none ↦ none | some f ↦ some (λ l i. f l) ];
      read = read;
      write = write;
      aggregate = agg_none;
    }

    -- `FsLeaf::table`
    unfoldable pub table : List (FsEntry (Leaf m))
    unfolding row reads writes
    table =
        row (codes "settings/log") 1 none (reads (λ size l. decimal l.level)) (writes w_log)
        ∷ row (codes "settings/poll") 3 none (reads (λ size l. int_text l.poll)) (writes w_poll)
        ∷ row (codes "settings/save_interval") 5 none
            (reads (λ size l. fitted size (int_text l.save_interval))) (writes w_save_interval)
        ∷ row (codes "settings/save") 1 none none (writes w_save)
        ∷ row (codes "settings/vcd_save") 1 none none (writes w_1wire_save)
        ∷ row (codes "status/version") 0 (some (λ l. length version_text))
            (reads (λ size l. fitted size version_text)) none
        ∷ row (codes "status/health") 0 (some (λ l. length (health_text l)))
            (reads (λ size l. fitted size (c_str (health_text l)))) none
        ∷ row (codes "status/1wire.vcd") (218 + 1024 * 30) none
            (reads (λ size l. log_dump size l.rest)) none
        ∷ []

    unfoldable pub leaf_dir : Text → Leaf m → List Text
    leaf_dir path l = dir l table path

    unfoldable pub leaf_attr : Text → Leaf m → Option ℕ
    leaf_attr path l = attr l table path

    unfoldable pub leaf_open : Text → Bool
    leaf_open path = open_row table path

    unfoldable pub leaf_read : Text → ℕ → Bool → Leaf m → Option (Reply × Leaf m)
    leaf_read path size uncached l = read_file table path size uncached l

    unfoldable pub leaf_write : Text → Text → Leaf m → Option (Reply × Leaf m)
    leaf_write path buf l = write_file table path buf l
