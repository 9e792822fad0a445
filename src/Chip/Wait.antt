-- ===== src/Chip/Wait.antt =====
-- `busyWait`: what its answer says.
use in10dhost.Prelude.{
  ℕ, zero, suc, ◌<◌, ◌≤◌, true, ◌≡◌, ◌≢◌, refl, [], ◌∷◌, not, ◌||◌, ◌⊎◌, inl, inr, arith,
  Bool-cases, bit_and, ◌==◌,
}
use in10dhost.Prelude.Int.{ℤ, pos, negsuc}
use in10dhost.Chip.{
  I2c, Chip, read_byte, wait_loop, busy_wait, set_read_ptr, write_cmd, sent, error_of, add_error,
  status_busy, status_inval, ptr_status, err_read, err_write,
}

-- The chip is ready and there was no error, or there was one and the answer is no status.
abbrev pub IsAnswer : (i : I2c) → ℕ × Chip i → Type 0
IsAnswer i (r, c) =
    ((c.last_err ≡ 0) × (bit_and r status_busy ≡ 0)) ⊎ ((c.last_err ≢ 0) × (r ≡ status_inval))

-- The chip after some further reads.
abbrev pub reads : (i : I2c) → ℕ → Chip i → Chip i
reads i zero c = c
reads i (suc n) c = reads i n (read_byte i c).1

-- The answer comes after so many reads, no more than a bound, and before that bound only where the chip
-- is ready or the last read failed.
abbrev pub IsAfter : (i : I2c) → ℕ → Chip i → ℕ × Chip i → ℕ → Type 0
IsAfter i most c (r, out) n =
    (n ≤ most)
    × (out.adapter ≡ (reads i n c).adapter)
    × ((n ≡ most) ⊎ ((out.last_err ≡ 0) ⊎ ((reads i n c).last_err ≢ 0)))

module _ (i : I2c) where
  IsAfter-one :
      (n m : ℕ) (c : Chip i) (out : ℕ × Chip i)
      → IsAfter i n (read_byte i c).1 out m
      → IsAfter i (suc n) c out (suc m)
  IsAfter-one n m c (r, out) (le, same_adapter, why) = (
    omega (arith, le),
    same_adapter,
    elim why [ inl all_read ↦ inl (omega (arith, all_read)) | inr early ↦ inr early ],
  )

  wait_loop-IsAnswer :
      (n res : ℕ) (c : Chip i)
      → 0 < n
      → c.last_err ≡ 0
      → IsAnswer i (wait_loop i n res c) × ((m : ℕ) × IsAfter i n c (wait_loop i n res c) m)
  unfolding wait_loop
  wait_loop-IsAnswer zero res c p h = absurd (omega arith)
  wait_loop-IsAnswer (suc n) res c p h = elim (Bool-cases (bit_and res status_busy == 0)) [
    | inl ready ↦ rw ready (inl (h, ground (arith, ready)), (0, (omega arith, refl, inr (inl h))))
    | inr busy ↦ elim (Bool-cases ((read_byte i c).1.last_err == err_read)) [
      | inl failed ↦
          rw (busy, failed)
            (
              inr (λ e. cc, refl),
              (1, (omega arith, refl, inr (inr (λ e. ground (arith, failed, e))))),
            )
      | inr no_read ↦ elim (Bool-cases (n == 0 || not ((read_byte i c).1.last_err == 0))) [
        | inl over ↦
            rw (busy, no_read, over)
              (inr (λ e. cc, refl), (1, (omega arith, refl, one_read n 18 (read_byte i c).1 over)))
        | inr more ↦
            let (answer, (m, after)) =
              wait_loop-IsAnswer n (read_byte i c).0 (read_byte i c).1 (ground (arith, more))
                (ground (arith, more)) in
            rw (busy, no_read, more)
              (
                answer,
                (
                  suc m,
                  IsAfter-one n m c (wait_loop i n (read_byte i c).0 (read_byte i c).1) after,
                ),
              )
      ]
    ]
  ]
    where
      one_read :
          (n e : ℕ) (c1 : Chip i)
          → (n == 0 || not (c1.last_err == 0)) ≡ true
          → (1 ≡ suc n) ⊎ ((e ≡ 0) ⊎ (c1.last_err ≢ 0))
      one_read n e c1 h = elim (Bool-cases (n == 0)) [
        | inl last ↦ inl (ground (arith, last))
        | inr more ↦ inr (inr (λ z. ground (arith, h, more, z)))
      ]

  error_of-lt : (r : ℤ) (def : ℕ) → def < 8 → error_of r def < 8
  unfolding error_of
  error_of-lt (pos n) def h = ground arith
  error_of-lt (negsuc n) def h = h

  set_read_ptr-lt : (p : ℕ) (c : Chip i) → c.last_err < 8 → (set_read_ptr i p c).last_err < 8
  unfolding set_read_ptr write_cmd sent
  set_read_ptr-lt p c h =
      ground (arith, error_of-lt (i.send (0xE1 ∷ p ∷ []) c.adapter).0 err_write (omega arith))

  read_byte-lt : (c : Chip i) → c.last_err < 8 → (read_byte i c).1.last_err < 8
  unfolding read_byte
  read_byte-lt c h = ground (arith, error_of-lt (i.receive c.adapter).0.0 err_read (omega arith))

  -- `busyWait` ends, after 500 further reads at most, with an answer that can be trusted:
  -- either there is no error and the status it gives is not busy, or there is an error and it
  -- gives 0xfd, which is no status of a chip that is ready. It makes fewer than 500 further
  -- reads only where the chip is ready or the last read failed, and leaves the adapter as those
  -- reads do. The error before is one that the I2C transfers leave, less than 8. This holds
  -- whatever the adapter does.
  pub busy_wait-IsAnswer :
      (c : Chip i)
      → c.last_err < 8
      → IsAnswer i (busy_wait i c)
        × ((n : ℕ) × IsAfter i 500 (read_byte i (set_read_ptr i ptr_status c)).1 (busy_wait i c) n)
  unfolding busy_wait add_error
  busy_wait-IsAnswer c h =
      let c0 : Chip i = set_read_ptr i ptr_status c in
      let lt = read_byte-lt c0 (set_read_ptr-lt ptr_status c h) in
      elim (Bool-cases ((read_byte i c0).1.last_err == 0)) [
        | inl fine ↦ rw fine (
            wait_loop-IsAnswer 500 (read_byte i c0).0 (read_byte i c0).1 (omega arith)
              (ground (arith, fine)))
        | inr failed ↦ rw failed (
          inr (λ e. absurd (omega (arith, lt, e)), refl),
          (0, (omega arith, refl, inr (inr (λ e. ground (arith, failed, e))))),
        )
      ]
