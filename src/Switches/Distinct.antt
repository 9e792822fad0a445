-- ===== src/Switches/Distinct.antt =====
-- The switches that the table holds, and that it holds none twice.
use in10dhost.Prelude.{
  ℕ, ◌≡◌, refl, ◌∙◌, Bool, true, false, not, ◌&&◌, ◌||◌, Option, none, some, List, [], ◌∷◌, ◌++◌,
  Text, if◌then◌else◌, arith, Bool-cases, inl, inr, length, Option-cases, same, codes, drop_end,
}
use in10dhost.Switches.Address.{Switch, same_switch, src_data, dst_data}
use in10dhost.Switches.Line.{parse_buf}
use in10dhost.Switches.RoundTrip.{IsListed}
use in10dhost.Switches.Table.{
  Table, Errno, upsert, erase, contains, set_disabled, ends_line, each_line, w_add, w_del, delete,
  mask, mask_line, mask_lines, split_lines, mask_blank,
}
use in10dhost.Switches.Writes.{lines_of, each_line-lines, unmasked, each_switch}

-- Looking a switch up by its two addresses.
pub contains-upsert :
    (k sw : Switch) (t : Table) → contains k (upsert sw t) ≡ (same_switch k sw || contains k t)
unfolding contains upsert same_switch
contains-upsert k sw [] = refl
contains-upsert k sw (x ∷ xs) = ground (arith, contains-upsert k sw xs)

pub contains-erase :
    (k sw : Switch) (t : Table) → contains k (erase sw t) ≡ (not (same_switch k sw) && contains k t)
unfolding contains erase same_switch
contains-erase k sw [] = ground arith
contains-erase k sw (x ∷ xs) = ground (arith, contains-erase k sw xs)

pub contains-set_disabled :
    (b : Bool) (k sw : Switch) (t : Table) → contains k (set_disabled b sw t) ≡ contains k t
unfolding contains set_disabled same_switch
contains-set_disabled b k sw [] = refl
contains-set_disabled b k sw (x ∷ xs) = ground (arith, contains-set_disabled b k sw xs)

pub erase_absent : (sw : Switch) (t : Table) → contains sw t ≡ false → erase sw t ≡ t
unfolding contains erase
erase_absent sw [] h = refl
erase_absent sw (x ∷ xs) h = ground (arith, erase_absent sw xs)

pub erase-upsert : (sw : Switch) (t : Table) → contains sw t ≡ false → erase sw (upsert sw t) ≡ t
unfolding contains erase upsert same_switch
erase-upsert sw [] h = ground arith
erase-upsert sw (x ∷ xs) h = ground (arith, erase-upsert sw xs)

-- No two entries are the same switch.
abbrev pub Distinct : Table → Type 0
Distinct [] = Unit {0}
Distinct (x ∷ xs) = (contains x xs ≡ false) × Distinct xs

contains_key :
    (k k' : Switch) (t : Table)
    → src_data k.src ≡ src_data k'.src
    → dst_data k.dst ≡ dst_data k'.dst
    → contains k t ≡ contains k' t
unfolding contains same_switch
contains_key k k' [] e d = refl
contains_key k k' (x ∷ xs) e d = ground (arith, contains_key k k' xs e d)

swap_same : (x y : Switch) → same_switch x y ≡ same_switch y x
unfolding same_switch
swap_same x y = ground arith

upsert-Distinct : (sw : Switch) (t : Table) → Distinct t → Distinct (upsert sw t)
unfolding upsert
upsert-Distinct sw [] v = (unfold contains in refl, tt)
upsert-Distinct sw (x ∷ xs) v = elim (Bool-cases (same_switch sw x)) [
  | inl same ↦ rw same (
    contains_key (record x { secs = sw.secs; on_press = sw.on_press; cond = sw.cond }) x xs refl
          refl
        ∙ v.0,
    v.1,
  )
  | inr other ↦
      rw other (contains-upsert x sw xs ∙ ground (arith, swap_same x sw), upsert-Distinct sw xs v.1)
]

erase-Distinct : (sw : Switch) (t : Table) → Distinct t → Distinct (erase sw t)
unfolding erase
erase-Distinct sw [] v = v
erase-Distinct sw (x ∷ xs) v = ground (arith, erase-Distinct sw xs v.1, contains-erase x sw xs)

set_disabled-Distinct :
    (b : Bool) (sw : Switch) (t : Table) → Distinct t → Distinct (set_disabled b sw t)
unfolding set_disabled
set_disabled-Distinct b sw [] v = v
set_disabled-Distinct b sw (x ∷ xs) v = (
  contains_key (if same_switch sw x then record x { disabled = b } else x) x (set_disabled b sw xs)
        (ground arith) (ground arith)
      ∙ contains-set_disabled b x sw xs
      ∙ v.0,
  set_disabled-Distinct b sw xs v.1,
)

each_line_keeps {ℓ κ} :
    {S : Type ℓ} (P : S → Type κ) (f : Switch → S → S)
    → ((sw : Switch) (s : S) → P s → P (f sw s))
    → (buf pending : Text) (s : S) → P s
    → P (each_line f buf pending s)
unfolding each_line
each_line_keeps P f keep [] pending s h = h
each_line_keeps P f keep (c ∷ cs) pending s h =
    elim (Option-cases (if ends_line c then parse_buf pending else none)) [
      | inl e ↦ rw (e, each_line) (each_line_keeps P f keep cs (pending ++ c ∷ []) s h)
      | inr (sw, e) ↦ rw (e, each_line) (each_line_keeps P f keep cs [] (f sw s) (keep sw s h))
    ]

-- Whatever is written to /switches/add, the table names no switch twice afterwards if it named
-- none twice before.
pub w_add-Distinct : (buf : Text) (t : Table) → Distinct t → Distinct (w_add buf t).1
unfolding w_add
w_add-Distinct buf t v = each_line_keeps Distinct upsert upsert-Distinct buf [] t v

-- Whatever is written to /switches/del, the table names no switch twice afterwards if it named
-- none twice before.
pub w_del-Distinct : (buf : Text) (t : Table) → Distinct t → Distinct (w_del buf t).1
unfolding w_del
w_del-Distinct buf t v =
    each_line_keeps (λ (s : Bool × Table). Distinct s.1) delete (λ sw s h. erase-Distinct sw s.1 h)
      buf [] (false, t) v

mask_line-Distinct : (b : Bool) (l : Text) (t : Table) → Distinct t → Distinct (mask_line b l t).1
unfolding mask_line
mask_line-Distinct b [] t v = v
mask_line-Distinct b (c ∷ cs) t v = elim (Option-cases (parse_buf (c ∷ cs))) [
  | inl e ↦ rw (e, mask_line) v
  | inr (sw, e) ↦
      rw (e, mask_line)
        (elim (Bool-cases (contains sw t)) [
          | inl here ↦ rw here (set_disabled-Distinct b sw t v)
          | inr missing ↦ rw missing v
        ])
]

mask_lines-Distinct :
    (b : Bool) (ls : List Text) (size : ℕ) (t : Table)
    → Distinct t
    → Distinct (mask_lines b ls size t).1
unfolding mask_lines
mask_lines-Distinct b [] size t v = v
mask_lines-Distinct b (l ∷ ls) size t v =
    go (mask_line b l t).0 refl (mask_line-Distinct b l t v)
      (mask_lines-Distinct b ls size (mask_line b l t).1 (mask_line-Distinct b l t v))
  where
    go :
        (e : Option Errno)
        → (mask_line b l t).0 ≡ e
        → Distinct (mask_line b l t).1
        → Distinct (mask_lines b ls size (mask_line b l t).1).1
        → Distinct (mask_lines b (l ∷ ls) size t).1
    go none e d rec = rw (e, mask_lines) rec
    go (some err) e d rec = rw (e, mask_lines) d

-- Whatever is written to /switches/disable or /switches/enable, the table names no switch twice
-- afterwards if it named none twice before.
pub mask-Distinct :
    (b : Bool) (buf : Text) (s : Bool × Table) → Distinct s.1 → Distinct (mask b buf s).2
unfolding mask
mask-Distinct b buf (all_off, t) v =
    elim (Bool-cases (same (drop_end mask_blank buf) (codes "all"))) [
      | inl e ↦ rw (e, mask) v
      | inr e ↦
          rw (e, mask)
            (mask_lines-Distinct b (split_lines [] (drop_end mask_blank buf)) (length buf) t v)
    ]

same_self_switch : (x : Switch) → same_switch x x ≡ true
unfolding same_switch
same_self_switch x = ground arith

-- A switch with a line of its own that was not in the table is gone again, and the table as
-- before, once its line is written to /switches/add and then to /switches/del; the second write
-- returns its whole size.
pub w_del-w_add :
    (sw : Switch) (t : Table)
    → IsListed sw
    → contains sw t ≡ false
    → w_del (lines_of (sw ∷ [])) (w_add (lines_of (sw ∷ [])) t).1 ≡ (length (lines_of (sw ∷ [])), t)
unfolding w_del w_add each_switch
w_del-w_add sw t v h =
    let k : Switch = unmasked sw in
    let gone : contains k t ≡ false = contains_key k sw t refl refl ∙ h in
    ground (
      arith,
      each_line-lines upsert (sw ∷ []) t (v, tt),
      each_line-lines delete (sw ∷ []) (false, upsert k t) (v, tt),
      contains-upsert k k t,
      same_self_switch k,
      erase-upsert k t gone,
    )
