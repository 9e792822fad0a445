-- ===== src/FsTable/First.antt =====
-- Which row and which index a path is matched with: the first.
use in10dhost.Prelude.{
  ℕ, zero, suc, ◌+◌, ◌≤◌, ◌<◌, ◌≡◌, ◌≢◌, refl, true, false, Option, none, some, List, [], ◌∷◌, Text,
  ◌==◌, arith, get_elem?, Bool-cases, Option-cases, inl, inr, ◌⊎◌, ap, ◌∙◌, subst, sym,
}
use in10dhost.Prelude.Find.{occurs}
use in10dhost.FsTable.{FsEntry, instances, path_name, try_order, tries, match_row, match, has}
use in10dhost.FsTable.Match.{
  IsIndex, tried, place_of, tried_place, tries_eq, some_inj, match_complete, tries_found,
}

below_none {ℓ} : {A : Type ℓ} (n : ℕ) → n < 0 → A
below_none n h = absurd (omega arith)

has_value {ℓ} : {A : Type ℓ} (o : Option A) → has o ≡ true → (a : A) × (o ≡ some a)
has_value none h = cc
has_value (some a) h = (a, refl)

module _ {ℓ} {T : Type ℓ} where
  -- ALL and BYTE come before the single files, and each of the two kinds by its index.
  abbrev pub IsEarlier : FsEntry T → ℕ → ℕ → Type 0
  IsEarlier e i j = ((e.count ≤ i) × (j < e.count)) ⊎ ((i < j) × ((j < e.count) ⊎ (e.count ≤ i)))

  -- The first count at which a name occurs.
  abbrev IsFirst : FsEntry T → ℕ → ℕ → Text → Option ℕ → Type 0
  IsFirst e k end path i =
      (q : ℕ) × (k ≤ q)
      × (q < end)
      × (i ≡ some (tried e q))
      × (occurs (path_name e i) path ≡ true)
      × ((p : ℕ) → k ≤ p → p < q → occurs (path_name e (some (tried e p))) path ≡ false)

  -- The file that is found in a row: its name occurs, and that of none before it.
  abbrev pub IsFirstFile : FsEntry T → Text → Option ℕ → Type 0
  IsFirstFile e path i =
      IsIndex e i
      × (occurs (path_name e i) path ≡ true)
      × ((j j' : ℕ)
          → i ≡ some j
          → IsIndex e (some j')
          → IsEarlier e j' j
          → occurs (path_name e (some j')) path ≡ false)

  -- The row and the file that are found in a table: no name of a row before it occurs.
  abbrev pub IsFirstMatch : List (FsEntry T) → Text → FsEntry T → Option ℕ → ℕ → Type ℓ
  IsFirstMatch es path e i k =
      (get_elem? es k ≡ some e)
      × IsFirstFile e path i
      × ((k' : ℕ) (e' : FsEntry T) (i' : Option ℕ)
          → k' < k
          → get_elem? es k' ≡ some e'
          → IsIndex e' i'
          → occurs (path_name e' i') path ≡ false)

  place_of-tried :
      (e : FsEntry T) (q : ℕ) → e.count ≢ 0 → q < instances e → place_of e (tried e q) ≡ q
  place_of-tried e q v lt = ground arith

  tried-lt : (e : FsEntry T) (q : ℕ) → e.count ≢ 0 → q < instances e → tried e q < instances e
  tried-lt e q v lt = ground arith

  place_of-earlier :
      (e : FsEntry T) (i j : ℕ)
      → e.count ≢ 0
      → i < instances e
      → IsEarlier e i j
      → j < instances e
      → place_of e i < place_of e j
  place_of-earlier e i j v li (inl (hi, hj)) lj = ground arith
  place_of-earlier e i j v li (inr (lt, inl hj)) lj = ground arith
  place_of-earlier e i j v li (inr (lt, inr hi)) lj = ground arith

  try_order-IsFirst :
      (e : FsEntry T) (left k : ℕ) (path : Text) (i : Option ℕ)
      → match_row e (try_order e left k) path ≡ some i
      → IsFirst e k (k + left) path i
  unfolding match_row try_order
  try_order-IsFirst e zero k path i h = cc
  try_order-IsFirst e (suc left) k path i h =
      elim (Bool-cases (occurs (path_name e (some (tried e k))) path)) [
        | inl o ↦
            let same_index : i ≡ some (tried e k) = sym (some_inj _ i (rw o at h)) in
            (
              k,
              omega arith,
              omega arith,
              same_index,
              ap (λ x. occurs (path_name e x) path) same_index ∙ o,
              λ p lo hi. absurd (omega arith),
            )
        | inr o ↦
            let (q, lo, hi, found, here, rest) =
              try_order-IsFirst e left (k + 1) path i (rw o at h) in
            (
              q,
              omega (arith, lo),
              omega (arith, hi),
              found,
              here,
              λ p pl ph. elim (eq-or-more k p pl) [
                | inl e' ↦ ap (λ n. occurs (path_name e (some (tried e n))) path) (sym e') ∙ o
                | inr more ↦ rest p more ph
              ],
            )
      ]
    where
      eq-or-more : (m n : ℕ) → m ≤ n → (m ≡ n) ⊎ (m + 1 ≤ n)
      eq-or-more m n h = omega arith

  tries_one : (e : FsEntry T) → e.count ≡ 0 → tries e ≡ none ∷ []
  unfolding tries
  tries_one e z =
      let zero_count : (e.count == 0) ≡ true = ground (arith, z) in rw (tries, zero_count) refl

  single_first :
      (e : FsEntry T) (path : Text) (i : Option ℕ)
      → e.count ≡ 0
      → match_row e (tries e) path ≡ some i
      → IsFirstFile e path i
  unfolding match_row
  single_first e path i z h = elim (Bool-cases (occurs (path_name e none) path)) [
    | inl o ↦
        let alone : i ≡ none = sym (some_inj none i (rw o at rw (tries_one e z) at h)) in
        (
          subst (λ x. IsIndex e x) (sym alone) z,
          ap (λ x. occurs (path_name e x) path) alone ∙ o,
          λ j j' at v early. absurd (v.0 z),
        )
    | inr o ↦ absurd (let nothing : none ≡ some i = rw o at rw (tries_one e z) at h in cc)
  ]

  many_first :
      (e : FsEntry T) (path : Text) (i : Option ℕ)
      → (e.count == 0) ≡ false
      → match_row e (tries e) path ≡ some i
      → IsFirstFile e path i
  many_first e path i nz h =
      let v : e.count ≢ 0 = λ z. ground (arith, nz, z) in
      let (q, lo, hi, found, here, rest) =
        try_order-IsFirst e (instances e) 0 path i (rw (tries_eq e nz) at h) in
      let is_index : IsIndex e (some (tried e q)) = (v, tried-lt e q v (omega (arith, hi))) in
      (
        subst (λ x. IsIndex e x) (sym found) is_index,
        here,
        λ j j' at (v', lt') early.
            let at_q : tried e q ≡ j = some_inj (tried e q) j (sym found ∙ at) in
            ap (λ n. occurs (path_name e (some n)) path) (sym (tried_place e j' v lt'))
            ∙ rest (place_of e j') (omega arith) (
                omega (
                  arith,
                  place_of-earlier e j' (tried e q) v lt'
                      (subst (λ n. IsEarlier e j' n) (sym at_q) early)
                      (tried-lt e q v (omega (arith, hi))),
                  place_of-tried e q v (omega (arith, hi)),
                )),
      )

  match_row-first :
      (e : FsEntry T) (path : Text) (i : Option ℕ)
      → match_row e (tries e) path ≡ some i
      → IsFirstFile e path i
  match_row-first e path i h = elim (Bool-cases (e.count == 0)) [
    | inl z ↦ single_first e path i (ground (arith, z)) h
    | inr nz ↦ many_first e path i nz h
  ]

  row_without :
      (e : FsEntry T) (path : Text) (i : Option ℕ)
      → match_row e (tries e) path ≡ none
      → IsIndex e i
      → occurs (path_name e i) path ≡ false
  row_without e path i h v = elim (Bool-cases (occurs (path_name e i) path)) [
    | inl o ↦ absurd (let found = tries_found e i path v o in cc)
    | inr o ↦ o
  ]

  rows_before :
      (x : FsEntry T) (es : List (FsEntry T)) (path : Text) (k : ℕ)
      → match_row x (tries x) path ≡ none
      → ((k' : ℕ) (e' : FsEntry T) (i' : Option ℕ)
          → k' < k
          → get_elem? es k' ≡ some e'
          → IsIndex e' i'
          → occurs (path_name e' i') path ≡ false)
      → (k' : ℕ) (e' : FsEntry T) (i' : Option ℕ) → k' < suc k
      → get_elem? (x ∷ es) k' ≡ some e'
      → IsIndex e' i'
      → occurs (path_name e' i') path ≡ false
  rows_before x es path k h others zero e' i' lt at v =
      row_without e' path i'
        (subst (λ (y : FsEntry T). match_row y (tries y) path ≡ none) (some_inj x e' at) h) v
  rows_before x es path k h others (suc k') e' i' lt at v = others k' e' i' (omega (arith, lt)) at v

  match-IsFirstMatch :
      (es : List (FsEntry T)) (path : Text) (e : FsEntry T) (i : Option ℕ)
      → match es path ≡ some (e, i)
      → (k : ℕ) × IsFirstMatch es path e i k
  unfolding match
  match-IsFirstMatch [] path e i h = cc
  match-IsFirstMatch (x ∷ es) path e i h = elim (Option-cases (match_row x (tries x) path)) [
    | inl none_here ↦
        let (k, (at, file, others)) = match-IsFirstMatch es path e i (rw (match, none_here) at h) in
        (suc k, (at, file, rows_before x es path k none_here others))
    | inr (i0, e0) ↦
        let found : (x, i0) ≡ (e, i) = some_inj (x, i0) (e, i) (rw (match, e0) at h) in
        (
          0,
          (
            ap (λ y. some y.0) found,
            subst (λ (y : FsEntry T × Option ℕ). IsFirstFile y.0 path y.1) found
                (match_row-first x path i0 e0),
            λ k' e' i' lt at v. below_none k' lt,
          ),
        )
  ]

  -- Where the name of a file of a table's row, ALL and BYTE included, occurs in a path, `match`
  -- finds the first such file: the name of the row and index that it gives occurs in the path,
  -- while no name of a row before it does, nor one of that row that comes earlier, which are
  -- ALL and BYTE before the single files, and each of the two kinds by its index.
  pub match-first :
      (es : List (FsEntry T)) (n : ℕ) (file : FsEntry T) (index : Option ℕ) (path : Text)
      → get_elem? es n ≡ some file
      → IsIndex file index
      → occurs (path_name file index) path ≡ true
      → (e : FsEntry T) × (i : Option ℕ) × (k : ℕ) × (match es path ≡ some (e, i))
        × IsFirstMatch es path e i k
  match-first es n file index path at v o =
      let ((e, i), found) =
        has_value (match es path) (match_complete es n file index path at v o) in
      let (k, first) = match-IsFirstMatch es path e i found in (e, i, k, found, first)
