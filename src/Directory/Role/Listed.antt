-- ===== src/Directory/Role/Listed.antt =====
-- What a role's directory names can be read.
use in10dhost.Prelude.{
  ℕ, zero, suc, ◌+◌, ◌++◌, ◌≡◌, refl, none, some, List, [], ◌∷◌, Text, codes, same, same_self,
  subst, ◌≢◌, if◌then◌else◌, get_elem?, arith, Bool-cases, Option-cases, inl, inr,
}
use in10dhost.Prelude.Find.{cut}
use in10dhost.Prelude.Int.{ℤ, pos}
use in10dhost.Numbers.Decimal.{decimal}
use in10dhost.Bus.{Bus}
use in10dhost.Pin.{PinRole, no_role}
use in10dhost.Directory.Role.Paths.{role_path, split-role_path}
use in10dhost.Switches.Table.{enoent, eisdir}
use in10dhost.Directory.Window.{window-append}
use in10dhost.Directory.{PinInfo, Home, pins, window, shown_size, answered, failed, elsewhere}
use in10dhost.Directory.Role.{
  Level, root, role, file, unknown, outside, split, count_on, list_text, read, attr, find_pin,
  pin_file, pin_files, content, role_files,
}

find_pin-listed :
    (ps : List PinInfo) (i : ℕ) (n : Text)
    → get_elem? (pin_files ps) i ≡ some n
    → (p : PinInfo) × (find_pin n ps ≡ some p)
unfolding pin_files find_pin
find_pin-listed [] i n h = cc
find_pin-listed (p ∷ ps) zero n h = (p, ground (arith, same_self n))
find_pin-listed (p ∷ ps) (suc i) n h = elim (Bool-cases (same (pin_file p) n)) [
  | inl e ↦ (p, rw e refl)
  | inr e ↦ rw e (find_pin-listed ps i n h)
]

content-pin :
    (ps : List PinInfo) (n : Text) (p : PinInfo)
    → find_pin n ps ≡ some p
    → (t : Text) × (content ps n ≡ some t)
unfolding content
content-pin ps n p h = elim (Bool-cases (same n (codes "all"))) [
  | inl e ↦ (decimal (count_on ps), rw e refl)
  | inr e ↦ elim (Bool-cases (same n (codes "list"))) [
    | inl f ↦ (list_text ps, rw (e, f) refl)
    | inr f ↦ ((if p.on then b'1' else b'0') ∷ [], rw (e, f, h) refl)
  ]
]

content_list : (ps : List PinInfo) → content ps (codes "list") ≡ some (list_text ps)
unfolding content same
content_list ps = refl

content-listed :
    (ps : List PinInfo) (i : ℕ) (n : Text)
    → get_elem? (role_files ps) i ≡ some n
    → (t : Text) × (content ps n ≡ some t)
unfolding role_files content
content-listed ps zero n h = (decimal (count_on ps), ground (arith, same_self n))
content-listed ps (suc zero) n h =
    (list_text ps, subst (λ m. content ps m ≡ some (list_text ps)) listed (content_list ps))
  where
    listed : codes "list" ≡ n
    listed = cc h
content-listed ps (suc (suc i)) n h = let (p, e) = find_pin-listed ps i n h in content-pin ps n p e

read_file :
    (b : Bus) (h : Home b) (path : Text) (size : ℕ) (offset : ℤ) (r : PinRole) (f t : Text)
    → split path ≡ file r f
    → content (pins b r h) f ≡ some t
    → (read b path size offset h ≡ answered (window size offset t))
      × (attr b path h ≡ answered (shown_size t))
unfolding read attr
read_file b h path size offset r f t p e = (rw (p, read) (rw e refl), rw (p, attr) (rw e refl))

-- Each file that the directory of a role names, other than the dots, can be read by the path
-- role/<role>/<file>, from any offset, and the size that is shown for it is that of the text it
-- reads, or 1 where that is empty. The name has one character at least and no slash.
pub read-listed :
    (b : Bus) (h : Home b) (r : PinRole) (i c size : ℕ) (cs : Text) (offset : ℤ)
    → r ≢ no_role
    → cut b'/' (c ∷ cs) ≡ none
    → get_elem? (role_files (pins b r h)) i ≡ some (c ∷ cs)
    → (t : Text) × (read b (role_path r (c ∷ cs)) size offset h ≡ answered (window size offset t))
      × (attr b (role_path r (c ∷ cs)) h ≡ answered (shown_size t))
read-listed b h r i c size cs offset ne solid listed =
    let (t, e) = content-listed (pins b r h) i (c ∷ cs) listed in
    let (done, shown) =
      read_file b h (role_path r (c ∷ cs)) size offset r (c ∷ cs) t
        (split-role_path r c cs ne solid) e in
    (t, done, shown)

read_level :
    (b : Bus) (h : Home b) (path : Text) (size : ℕ) (offset : ℤ) (l : Level)
    → split path ≡ l
    → read b path size offset h ≡ elim l [
      | root ↦ failed eisdir
      | role r ↦ failed eisdir
      | file r f ↦ elim (content (pins b r h) f) [
        | none ↦ failed enoent
        | some s ↦ answered (window size offset s)
      ]
      | unknown ↦ failed enoent
      | outside ↦ elsewhere
    ]
unfolding read
read_level b h path size offset l p = rw (p, read) refl

-- A read that is answered is one of a file's content.
answered_read :
    (b : Bus) (h : Home b) (path x : Text) (size : ℕ) (offset : ℤ) (l : Level)
    → split path ≡ l
    → read b path size offset h ≡ answered x
    → (t : Text) × (x ≡ window size offset t)
      × ((n : ℕ) (o : ℤ) → read b path n o h ≡ answered (window n o t))
answered_read b h path x size offset root p e = cc (e, read_level b h path size offset root p)
answered_read b h path x size offset (role r) p e =
    cc (e, read_level b h path size offset (role r) p)
answered_read b h path x size offset unknown p e = cc (e, read_level b h path size offset unknown p)
answered_read b h path x size offset outside p e = cc (e, read_level b h path size offset outside p)
answered_read b h path x size offset (file r f) p e = elim (Option-cases (content (pins b r h) f)) [
  | inl missing ↦ absurd (ground (arith, e, missing, read_level b h path size offset (file r f) p))
  | inr (t, there) ↦ (
    t,
    ground (arith, e, there, read_level b h path size offset (file r f) p),
    λ n o. (read_file b h path n o r f t p there).0,
  )
]

pub read-pieces :
    (b : Bus) (h : Home b) (path x y : Text) (n m offset : ℕ)
    → read b path n (pos offset) h ≡ answered x
    → read b path m (pos (offset + n)) h ≡ answered y
    → read b path (n + m) (pos offset) h ≡ answered (x ++ y)
read-pieces b h path x y n m offset hx hy =
    let (t, ex, all_of) = answered_read b h path x n (pos offset) (split path) refl hx in
    let ey : y ≡ window m (pos (offset + n)) t = cc (hy, all_of m (pos (offset + n))) in
    rw (ex, ey, window-append n m offset t) (all_of (n + m) (pos offset))
