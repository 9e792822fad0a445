-- ===== src/FsTable.antt =====
-- include/fs_table.h: the files of a device as rows of a table, and how a path finds its row.
pub mod Match
pub mod First
mod Tests
use in10dhost.Prelude.{
  ℕ, zero, suc, ◌+◌, ◌-◌, ◌*◌, ◌^◌, Bool, true, false, not, ◌&&◌, ◌||◌, Option, none, some, List,
  [], ◌∷◌, ◌++◌, Text, codes, length, get_or, ltb, ◌==◌, same, if◌then◌else◌,
}
use in10dhost.Prelude.Find.{find_text, occurs, cut}
use in10dhost.Numbers.Decimal.{decimal}
use in10dhost.Switches.Table.{Errno}

pub data FsAggregate : Type 0 where
  agg_none agg_all agg_all_byte : FsAggregate

-- What a handler answers: the text it read, how many bytes it took, or an error.
pub data Reply : Type 0 where
  text : Text → Reply
  took : ℕ → Reply
  error : Errno → Reply

-- A row, with the callbacks on a device's state. A read is given the size of the buffer and `uncached`. `none` as an index is the source's -1.
pub record FsEntry {ℓ} (T : Type ℓ) : Type ℓ where
  pub name : Text
  pub suglen : ℕ
  pub count : ℕ
  pub alpha : Bool
  pub visible : Option (T → Option ℕ → Bool)
  pub size_cb : Option (T → Option ℕ → ℕ)
  pub read : Option (ℕ → Bool → Option ℕ → T → Reply × T)
  pub write : Option (Text → Option ℕ → T → Reply × T)
  pub aggregate : FsAggregate

abbrev pub extra_of : FsAggregate → ℕ
extra_of agg_none = 0
extra_of agg_all = 1
extra_of agg_all_byte = 2

abbrev pub is_aggregate : FsAggregate → Bool
is_aggregate agg_none = false
is_aggregate agg_all = true
is_aggregate agg_all_byte = true

abbrev pub has_byte : FsAggregate → Bool
has_byte agg_none = false
has_byte agg_all = false
has_byte agg_all_byte = true

unfoldable pub index_text : Option ℕ → Text
index_text none = codes "-1"
index_text (some i) = decimal i

letter : Option ℕ → Text
letter none = 64 ∷ []
letter (some i) = (65 + i) ∷ []

-- The text before the slash of a name, if it has one.
abbrev pub before_slash : Text → Text
before_slash s = elim (cut b'/' s) [ none ↦ s | some (a, z) ↦ a ]

-- 0 .. instances-1, or -1 alone.
unfoldable pub count_up : ℕ → ℕ → List (Option ℕ)
count_up zero j = []
count_up (suc left) j = some j ∷ count_up left (j + 1)

abbrev pub listed : Text → List Text → Bool
listed s [] = false
listed s (x ∷ xs) = same x s || listed s xs

abbrev pub has {ℓ} : {A : Type ℓ} → Option A → Bool
has none = false
has (some a) = true

-- `none` as a path's answer is NOT_FOUND.
module _ {ℓ} {T : Type ℓ} where
  abbrev pub instances : FsEntry T → ℕ
  instances e = if e.count == 0 then 0 else e.count + extra_of e.aggregate

  -- Whether an index is that of ALL, or of BYTE.
  abbrev pub at_all : FsEntry T → Option ℕ → Bool
  at_all e none = false
  at_all e (some i) = is_aggregate e.aggregate && i == e.count

  abbrev pub at_byte : FsEntry T → Option ℕ → Bool
  at_byte e none = false
  at_byte e (some i) = has_byte e.aggregate && i == e.count + 1

  -- What stands for the '*'.
  unfoldable pub label : FsEntry T → Option ℕ → Text
  unfolding letter
  label e i =
      if at_all e i
      then codes "ALL"
      else if at_byte e i
      then codes "BYTE"
      else if e.alpha
      then letter i
      else index_text i

  unfoldable pub instance_name : FsEntry T → Text → Option ℕ → Text
  instance_name e s i = elim (cut b'*' s) [ none ↦ s | some (a, z) ↦ a ++ (label e i ++ z) ]

  -- The instances of a row in the order in which a path is tried: ALL and BYTE first.
  unfoldable pub try_order : FsEntry T → ℕ → ℕ → List (Option ℕ)
  try_order e zero k = []
  try_order e (suc left) k =
      some (if ltb k (extra_of e.aggregate) then e.count + k else k - extra_of e.aggregate)
      ∷ try_order e left (k + 1)

  unfoldable pub tries : FsEntry T → List (Option ℕ)
  tries e = if e.count == 0 then none ∷ [] else try_order e (instances e) 0

  -- The name that is looked for in a path.
  abbrev pub path_name : FsEntry T → Option ℕ → Text
  path_name e none = e.name
  path_name e (some j) = instance_name e e.name (some j)

  unfoldable pub match_row : FsEntry T → List (Option ℕ) → Text → Option (Option ℕ)
  match_row e [] path = none
  match_row e (i ∷ is) path =
      let rest = match_row e is path in if occurs (path_name e i) path then some i else rest

  -- The row and the index that a path names, by the first name that occurs in it.
  unfoldable pub match : List (FsEntry T) → Text → Option (FsEntry T × Option ℕ)
  match [] path = none
  match (e ∷ es) path =
      let rest = match es path in
      elim (match_row e (tries e) path) [ none ↦ rest | some i ↦ some (e, i) ]

  unfoldable pub indices : FsEntry T → List (Option ℕ)
  indices e = if e.count == 0 then none ∷ [] else count_up (instances e) 0

unfoldable pub names_dir : Text → Text → Bool
names_dir path prefix = elim (find_text prefix path) [
  | none ↦ false
  | some i ↦
      let end = i + length prefix in
      end == length path || end + 1 == length path && get_or path end 0 == b'/'
]

module _ {ℓ} {T : Type ℓ} where
  unfoldable pub any_dir : FsEntry T → Text → List (Option ℕ) → Text → Bool
  any_dir e prefix [] path = false
  any_dir e prefix (i ∷ is) path =
      names_dir path (instance_name e prefix i) || any_dir e prefix is path

  unfoldable pub implied_dir : List (FsEntry T) → Text → Bool
  implied_dir [] path = false
  implied_dir (e ∷ es) path =
      elim (cut b'/' e.name) [ none ↦ false | some (a, z) ↦ any_dir e a (indices e) path ]
      || implied_dir es path

  -- `instance_of` a row's files in the directory that a path names.
  unfoldable pub dir_row : FsEntry T → Text → Text → List (Option ℕ) → Text → List Text
  dir_row e prefix rest [] path = []
  dir_row e prefix rest (i ∷ is) path =
      let more = dir_row e prefix rest is path in
      if names_dir path (instance_name e prefix i) then instance_name e rest i ∷ more else more

  unfoldable pub inner_dir : List (FsEntry T) → Text → List Text
  inner_dir [] path = []
  inner_dir (e ∷ es) path =
      elim (cut b'/' e.name) [ none ↦ [] | some (a, z) ↦ dir_row e a z (indices e) path ]
      ++ inner_dir es path

  abbrev pub is_visible : T → FsEntry T → Option ℕ → Bool
  is_visible t e i = elim e.visible [ none ↦ true | some v ↦ v t i ]

  -- The names of a row that are not in the list yet, put at its end.
  unfoldable pub top_row : T → FsEntry T → List (Option ℕ) → List Text → List Text
  top_row t e [] out = out
  top_row t e (i ∷ is) out =
      let inst = instance_name e (before_slash e.name) i in
      top_row t e is (if not (is_visible t e i) || listed inst out then out else out ++ inst ∷ [])

  unfoldable pub top_dir : T → List (FsEntry T) → List Text → List Text
  top_dir t [] out = out
  top_dir t (e ∷ es) out = top_dir t es (top_row t e (indices e) out)

  unfoldable pub dir : T → List (FsEntry T) → Text → List Text
  dir t es path = elim (inner_dir es path) [ [] ↦ top_dir t es [] | x ∷ xs ↦ x ∷ xs ]

  unfoldable pub attr_row : T → FsEntry T → Option ℕ → ℕ
  attr_row t e i =
      if at_all e i
      then e.count * e.suglen + e.count - 1
      else if at_byte e i
      then length (decimal (2 ^ e.count - 1))
      else elim e.size_cb [ none ↦ e.suglen | some f ↦ f t i ]

  unfoldable pub attr : T → List (FsEntry T) → Text → Option ℕ
  attr t es path = elim (match es path) [
    | some (e, i) ↦ some (attr_row t e i)
    | none ↦ if implied_dir es path then some 0 else none
  ]

  -- Whether a path can be opened: 0 or NOT_FOUND.
  unfoldable pub open_row : List (FsEntry T) → Text → Bool
  open_row es path = elim (match es path) [ none ↦ false | some (e, i) ↦ has e.read || has e.write ]

  unfoldable pub read_file : List (FsEntry T) → Text → ℕ → Bool → T → Option (Reply × T)
  read_file es path size uncached t = elim (match es path) [
    | none ↦ none
    | some (e, i) ↦ elim e.read [ none ↦ none | some f ↦ some (f size uncached i t) ]
  ]

  unfoldable pub write_file : List (FsEntry T) → Text → Text → T → Option (Reply × T)
  write_file es path buf t = elim (match es path) [
    | none ↦ none
    | some (e, i) ↦ elim e.write [ none ↦ none | some f ↦ some (f buf i t) ]
  ]
