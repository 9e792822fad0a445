-- ===== src/FsTable/Match.antt =====
-- Which paths find a row.
use in10dhost.Prelude.{
  ℕ, zero, suc, ◌+◌, ◌-◌, ◌≤◌, ◌<◌, ◌≡◌, ◌≢◌, refl, true, false, Option, none, some, List, [], ◌∷◌,
  Text, ltb, ◌==◌, if◌then◌else◌, arith, get_elem?, Bool-cases, inl, inr, ◌⊎◌, ap, ◌∙◌, subst, sym,
}
use in10dhost.Prelude.Find.{occurs}
use in10dhost.FsTable.{
  FsEntry, extra_of, instances, path_name, try_order, tries, match_row, match, has,
}

has_step {ℓ} :
    {A : Type ℓ} (o : Option (Option ℕ)) (r : Option A) (f : Option ℕ → A)
    → has o ≡ true
    → has (elim o [ none ↦ r | some i ↦ some (f i) ]) ≡ true
has_step none r f h = cc
has_step (some i) r f h = refl

has_rest {ℓ} :
    {A : Type ℓ} (o : Option (Option ℕ)) (r : Option A) (f : Option ℕ → A)
    → has r ≡ true
    → has (elim o [ none ↦ r | some i ↦ some (f i) ]) ≡ true
has_rest none r f h = h
has_rest (some i) r f h = refl

pub some_inj {ℓ} : {A : Type ℓ} (x y : A) → some x ≡ some y → x ≡ y
some_inj x y h = cc

module _ {ℓ} {T : Type ℓ} where
  -- The indices of a row's files, as a directory lists them.
  abbrev pub IsIndex : FsEntry T → Option ℕ → Type 0
  IsIndex e none = e.count ≡ 0
  IsIndex e (some j) = (e.count ≢ 0) × (j < instances e)

  -- The index that is tried at a count.
  abbrev pub tried : FsEntry T → ℕ → ℕ
  tried e k = if ltb k (extra_of e.aggregate) then e.count + k else k - extra_of e.aggregate

  -- The count at which an index is tried.
  abbrev pub place_of : FsEntry T → ℕ → ℕ
  place_of e j = if ltb j e.count then j + extra_of e.aggregate else j - e.count

  pub tried_place :
      (e : FsEntry T) (j : ℕ) → e.count ≢ 0 → j < instances e → tried e (place_of e j) ≡ j
  tried_place e j v lt = ground arith

  pub before : (e : FsEntry T) (j : ℕ) → e.count ≢ 0 → j < instances e → place_of e j < instances e
  before e j v lt = ground arith

  try_order_found :
      (e : FsEntry T) (left k q : ℕ) (path : Text)
      → k ≤ q
      → q < k + left
      → occurs (path_name e (some (tried e q))) path ≡ true
      → has (match_row e (try_order e left k) path) ≡ true
  unfolding match_row try_order
  try_order_found e zero k q path lo hi h = absurd (omega arith)
  try_order_found e (suc left) k q path lo hi h = elim (eq-or-more k q lo) [
    | inl same_place ↦
        at_head (some (tried e k)) (try_order e left (k + 1))
          (ap (λ n. occurs (path_name e (some (tried e n))) path) same_place ∙ h)
    | inr later ↦
        behind (some (tried e k)) (try_order e left (k + 1))
          (try_order_found e left (k + 1) q path later (omega arith) h)
  ]
    where
      eq-or-more : (m n : ℕ) → m ≤ n → (m ≡ n) ⊎ (m + 1 ≤ n)
      eq-or-more m n h = omega arith

      at_head :
          (i : Option ℕ) (is : List (Option ℕ))
          → occurs (path_name e i) path ≡ true
          → has (match_row e (i ∷ is) path) ≡ true
      at_head i is h = rw h refl

      behind :
          (i : Option ℕ) (is : List (Option ℕ))
          → has (match_row e is path) ≡ true
          → has (match_row e (i ∷ is) path) ≡ true
      behind i is h = elim (Bool-cases (occurs (path_name e i) path)) [
        | inl o ↦ rw o refl
        | inr o ↦ rw o h
      ]

  pub tries_eq : (e : FsEntry T) → (e.count == 0) ≡ false → tries e ≡ try_order e (instances e) 0
  unfolding tries
  tries_eq e h = simp h refl

  -- Every file of a row is tried.
  pub tries_found :
      (e : FsEntry T) (i : Option ℕ) (path : Text)
      → IsIndex e i
      → occurs (path_name e i) path ≡ true
      → has (match_row e (tries e) path) ≡ true
  unfolding tries match_row
  tries_found e none path v h = simp v (simp h refl)
  tries_found e (some j) path (v, lt) h = elim (Bool-cases (e.count == 0)) [
    | inl z ↦ absurd (ground (arith, z, v))
    | inr nz ↦ rw (tries_eq e nz) (
        try_order_found e (instances e) 0 (place_of e j) path (omega arith)
          (omega (arith, before e j v lt))
          (subst (λ n. occurs (path_name e (some n)) path ≡ true) (sym (tried_place e j v lt)) h))
  ]

  -- A path in which the name of a file of some row occurs is matched.
  pub match_complete :
      (es : List (FsEntry T)) (k : ℕ) (e : FsEntry T) (i : Option ℕ) (path : Text)
      → get_elem? es k ≡ some e
      → IsIndex e i
      → occurs (path_name e i) path ≡ true
      → has (match es path) ≡ true
  unfolding match
  match_complete [] k e i path at v h = cc
  match_complete (x ∷ es) zero e i path at v h =
      has_step (match_row x (tries x) path) (match es path) (λ j. (x, j))
        (subst (λ (y : FsEntry T). has (match_row y (tries y) path) ≡ true) (sym (some_inj x e at))
          (tries_found e i path v h))
  match_complete (x ∷ es) (suc k) e i path at v h =
      has_rest (match_row x (tries x) path) (match es path) (λ j. (x, j))
        (match_complete es k e i path at v h)
