-- ===== src/Switches/Table.antt =====
-- The writes to the switch table, src/switch_handler.cpp: `w_add`, `w_del` and `mask`.
use in10dhost.Prelude.{
  ℕ, Bool, true, false, ◌||◌, Option, none, some, List, [], ◌∷◌, ◌++◌, Text, codes, is_space,
  drop_end, same, ◌==◌, if◌then◌else◌, length,
}
use in10dhost.Switches.Address.{Switch, same_switch}
use in10dhost.Switches.Line.{parse_buf}

abbrev pub Table : Type 0
Table = List Switch

-- Adding a switch that is there sets its timing and condition anew, on the first entry that is it.
unfoldable pub upsert : Switch → Table → Table
upsert sw [] = sw ∷ []
upsert sw (x ∷ xs) =
    if same_switch sw x
    then record x { secs = sw.secs; on_press = sw.on_press; cond = sw.cond } ∷ xs
    else x ∷ upsert sw xs

-- Every entry that is the switch is erased.
unfoldable pub erase : Switch → Table → Table
erase sw [] = []
erase sw (x ∷ xs) = let rest = erase sw xs in if same_switch sw x then rest else x ∷ rest

unfoldable pub contains : Switch → Table → Bool
contains sw [] = false
contains sw (x ∷ xs) = same_switch sw x || contains sw xs

unfoldable pub set_disabled : Bool → Switch → Table → Table
set_disabled b sw [] = []
set_disabled b sw (x ∷ xs) =
    (if same_switch sw x then record x { disabled = b } else x) ∷ set_disabled b sw xs

abbrev pub ends_line : ℕ → Bool
ends_line c = c == b'\n' || c == 0

-- The loop over the buffer that `w_add` and `w_del` share: `pending` is what lies between `start` and
-- `i`. A line that does not parse leaves `start` where it is, and stays pending.
unfoldable pub each_line {ℓ} : {S : Type ℓ} → (Switch → S → S) → Text → Text → S → S
each_line f [] pending s = s
each_line f (c ∷ cs) pending s = elim (if ends_line c then parse_buf pending else none) [
  | none ↦ each_line f cs (pending ++ c ∷ []) s
  | some sw ↦ each_line f cs [] (f sw s)
]

unfoldable pub w_add : Text → Table → ℕ × Table
w_add buf t = (length buf, each_line upsert buf [] t)

abbrev pub delete : Switch → Bool × Table → Bool × Table
delete sw (found, t) = (found || contains sw t, erase sw t)

-- 0 where no line named an entry.
unfoldable pub w_del : Text → Table → ℕ × Table
w_del buf t =
    let (found, t') = each_line delete buf [] (false, t) in (if found then length buf else 0, t')

pub data Errno : Type 0 where
  einval enoent eagain eio efbig ebusy enoexec eproto etimedout enotdir eisdir eperm : Errno

pub data Status : Type 0 where
  done : ℕ → Status
  fail : Errno → Status

unfoldable pub split_lines : Text → Text → List Text
split_lines line [] = line ∷ []
split_lines line (c ∷ cs) = elim (c == b'\n') [
  | true ↦ line ∷ split_lines [] cs
  | false ↦ split_lines (line ++ c ∷ []) cs
]

-- One line of a mask: the table it leaves, and the error that ends the write.
unfoldable pub mask_line : Bool → Text → Table → Option Errno × Table
mask_line b [] t = (none, t)
mask_line b (c ∷ cs) t = elim (parse_buf (c ∷ cs)) [
  | none ↦ (some einval, t)
  | some sw ↦ if contains sw t then (none, set_disabled b sw t) else (some enoent, t)
]

unfoldable pub mask_lines : Bool → List Text → ℕ → Table → Status × Table
mask_lines b [] size t = (done size, t)
mask_lines b (l ∷ ls) size t =
    let (e, t') = mask_line b l t in
    elim e [ some err ↦ (fail err, t') | none ↦ mask_lines b ls size t' ]

abbrev pub mask_blank : ℕ → Bool
mask_blank c = is_space c || c == 0

-- What `/switches/disable` and `/switches/enable` do: all switches by the flag of the mode
-- (`all_disabled_set`), or the ones that are named. The Boolean is whether all are masked.
unfoldable pub mask : Bool → Text → Bool × Table → Status × Bool × Table
mask b buf (all_off, t) =
    let text = drop_end mask_blank buf in
    if same text (codes "all")
    then (done (length buf), b, t)
    else (let (r, t') = mask_lines b (split_lines [] text) (length buf) t in (r, all_off, t'))
