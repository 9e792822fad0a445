-- ===== src/Bus.antt =====
-- The 1-Wire controller as its users see it (include/ds2482.h: selectChannel, reset, select, write,
-- read, last_err), and the loop that repeats a transfer until the device confirms it.
use in10dhost.Prelude.{
  ℕ, zero, suc, ◌<◌, Bool, List, [], ◌∷◌, ◌≡◌, inl, inr, refl, ◌==◌, if◌then◌else◌, Bool-cases,
}

-- `St` is the whole bus: the chip, the devices on the wire, and the time. What a call answers, and
-- whether it fails, is decided there. A byte that is read is a `uint8_t`.
pub record Bus : Type 1 where
  pub St : Type 0
  pub select_channel : ℕ → St → Bool × St
  pub reset : St → Bool × St
  pub select : List ℕ → St → St
  pub write : ℕ → St → St
  pub read : St → ℕ × St
  pub last_err : St → ℕ
  pub read-lt : (s : St) → (read s).0 < 256

-- The device's confirmation of a transfer.
abbrev pub confirm : ℕ
confirm = 0xAA

module _ (b : Bus) where
  open b use {St, write, read, last_err}

  -- `if (ds->last_err == 0) ds->write(x);`
  abbrev pub write_ok : ℕ → St → St
  write_ok x s = if last_err s == 0 then write x s else s

  -- A buffer of bytes, each written whatever became of the one before.
  unfoldable pub write_all : List ℕ → St → St
  write_all [] s = s
  write_all (x ∷ xs) s = write_all xs (write x s)

  unfoldable pub read_all : ℕ → St → List ℕ × St
  read_all zero s = ([], s)
  read_all (suc n) s = let (x, s1) = read s in let (xs, s2) = read_all n s1 in (x ∷ xs, s2)

  -- `do { r = attempt(); if (r == 0xAA) break; } while (--retry > 0)`: one attempt and at most `n`
  -- more. The answer is the last one.
  unfoldable pub retry : ℕ → (St → ℕ × St) → St → ℕ × St
  retry zero attempt s = attempt s
  retry (suc n) attempt s =
      let (r, s1) = attempt s in
      let again = retry n attempt s1 in if r == confirm then (r, s1) else again

  -- Repeating keeps what every attempt keeps.
  pub retry_keeps {κ} :
      (P : St → Type κ) (n : ℕ) (attempt : St → ℕ × St)
      → ((s : St) → P s → P (attempt s).1)
      → (s : St) → P s
      → P (retry n attempt s).1
  unfolding retry
  retry_keeps P zero attempt keep s h = keep s h
  retry_keeps P (suc n) attempt keep s h = elim (Bool-cases ((attempt s).0 == confirm)) [
    | inl done ↦ rw done (keep s h)
    | inr more ↦ rw more (retry_keeps P n attempt keep (attempt s).1 (keep s h))
  ]

  -- How many attempts a call makes: the first confirmed one ends it.
  pub retry_first :
      (n : ℕ) (attempt : St → ℕ × St) (s : St)
      → (attempt s).0 ≡ confirm
      → retry n attempt s ≡ attempt s
  unfolding retry
  retry_first zero attempt s h = refl
  retry_first (suc n) attempt s h = rw h
