-- ===== src/Ds2450/Volts.antt =====
-- What a voltage reads as, and what an update of one leaves.
use in10dhost.Prelude.{
  ℕ, zero, suc, ◌+◌, ◌*◌, ◌≤◌, ◌<◌, ◌≡◌, refl, ap, true, false, some, Option, List, [], ◌∷◌, ◌++◌,
  Text, codes, length, get_or, set, arith, ◌⊎◌, inl, inr, Bool-cases, ◌∙◌, length-append,
  append_assoc, ◌==◌, if◌then◌else◌,
}
use in10dhost.Prelude.Int.{pos}
use in10dhost.Bus.{Bus}
use in10dhost.FsTable.{text}
use in10dhost.Numbers.Decimal.{decimal}
use in10dhost.Numbers.Fixed.{fixed2, fixed2_signed, round_even, hundredths_text, length-fixed2}
use in10dhost.Ds2450.{
  Ds2450, adc_get, adc_read, convert, volt_update, fs_read_volt, read_channels, channels, r_volt,
  minus_one, Seen,
}

-- The voltages that a conversion to ten bits can leave.
abbrev pub IsTenBit : Ds2450 → Type 0
IsTenBit d = (ch : ℕ) → get_or d.volts ch 0 ≤ 5 * 1023

four_chars : (n : ℕ) → n ≤ 5 * 1023 → length (fixed2_signed 1024 (pos n)) ≡ 4
unfolding fixed2_signed
four_chars n h = length-fixed2 1024 n small
  where
    small : round_even (100 * n) 1024 < 1000
    small = unfold round_even in ground arith

get_or-set_self : (xs : List ℕ) (i v : ℕ) → i < length xs → get_or (set xs i v) i 0 ≡ v
get_or-set_self [] i v h = elim h [ ]
get_or-set_self (x ∷ xs) zero v h = refl
get_or-set_self (x ∷ xs) (suc i) v h = get_or-set_self xs i v (omega arith)

-- The text of a channel's voltage, and of all four.
abbrev pub shown : Ds2450 → ℕ → Text
shown d ch = fixed2_signed 1024 (pos (get_or d.volts ch 0))

abbrev pub joined : Ds2450 → Text
joined d = shown d 0 ++ (b',' ∷ shown d 1 ++ (b',' ∷ shown d 2 ++ (b',' ∷ shown d 3)))

length-joined : (d : Ds2450) → IsTenBit d → length (joined d) ≡ 19
length-joined d v = omega (
  arith,
  length-append (shown d 0) (b',' ∷ shown d 1 ++ (b',' ∷ shown d 2 ++ (b',' ∷ shown d 3))),
  length-append (shown d 1) (b',' ∷ shown d 2 ++ (b',' ∷ shown d 3)),
  length-append (shown d 2) (b',' ∷ shown d 3),
  four_chars (get_or d.volts 0 0) (v 0),
  four_chars (get_or d.volts 1 0) (v 1),
  four_chars (get_or d.volts 2 0) (v 2),
  four_chars (get_or d.volts 3 0) (v 3),
)

most : fixed2_signed 1024 (pos (minus_one * 5)) ≡ codes "320.00"
unfolding fixed2_signed fixed2 hundredths_text round_even decimal
most = refl

module _ (b : Bus) where
  open b use {St, select_channel, reset, select}

  cached :
      (d : Ds2450) (s : St) (ch : ℕ)
      → ch < 4
      → fs_read_volt b ch false (d, s) ≡ (some (shown d ch), (d, s))
  unfolding fs_read_volt adc_get
  cached d s ch h = ground arith

  next_channel :
      (ch : ℕ) (chs : List ℕ) (out t : Text) (w : Seen b)
      → fs_read_volt b ch false w ≡ (some t, w)
      → read_channels b (ch ∷ chs) false out w
        ≡ read_channels b chs false ((if ch == 0 then out else out ++ b',' ∷ []) ++ t) w
  unfolding read_channels
  next_channel ch chs out t w h =
      rw (h, read_channels)
        (ap (λ v. read_channels b chs false ((if ch == 0 then out else out ++ b',' ∷ []) ++ t) v)
          (ap (λ (p : Option Text × Seen b). p.1) h))

  all_cached :
      (d : Ds2450) (s : St) → read_channels b channels false [] (d, s) ≡ (some (joined d), (d, s))
  all_cached d s =
      let step = λ (ch : ℕ) (chs : List ℕ) (out : Text) (h : ch < 4).
        next_channel ch chs out (shown d ch) (d, s) (cached d s ch h) in
      rw (step 0 (1 ∷ 2 ∷ 3 ∷ []) [] (omega arith)) (
        rw (step 1 (2 ∷ 3 ∷ []) (shown d 0) (omega arith)) (
          rw (step 2 (3 ∷ []) ((shown d 0 ++ b',' ∷ []) ++ shown d 1) (omega arith)) (
            rw
              (step 3 [] ((((shown d 0 ++ b',' ∷ []) ++ shown d 1) ++ b',' ∷ []) ++ shown d 2)
                (omega arith))
              (unfold read_channels in simp append_assoc))))

  -- From a buffer of 24 bytes on, the cached volt.A to volt.D read the voltages in hundredths,
  -- volt.ALL reads the same four texts with commas between them, and that text and its NUL fit
  -- the buffer, where each voltage is at most that of a conversion to ten bits.
  pub r_volt-joined :
      (d : Ds2450) (s : St) (size : ℕ)
      → 24 ≤ size
      → IsTenBit d
      → ((ch : ℕ) → ch < 4 → (r_volt b size false ch (d, s)).0 ≡ text (shown d ch))
        × ((r_volt b size false 4 (d, s)).0 ≡ text (joined d))
        × (length (joined d) + 1 ≤ size)
  unfolding r_volt
  r_volt-joined d s size hs v = (
    λ ch h. rw (cached d s ch h) (ground arith),
    rw (all_cached d s) (ground arith),
    omega (arith, length-joined d v),
  )

  -- The bus once the conversion of a channel was started.
  abbrev pub converted : Ds2450 → ℕ → St → St
  converted d ch s = convert b ch (select d.base.addr (reset (select_channel d.base.bus s).1).1)

  started :
      (d : Ds2450) (s : St) (ch : ℕ)
      → ch < 4
      → (select_channel d.base.bus s).0 ≡ true
      → (reset (select_channel d.base.bus s).1).0 ≡ true
      → adc_read b ch 0 (d, s) ≡ (0, (d, converted d ch s))
  unfolding adc_read
  started d s ch h chosen there = rw (chosen, there) (ground arith)

  lost :
      (d : Ds2450) (s : St) (ch : ℕ)
      → ch < 4
      → (select_channel d.base.bus s).0 ≡ false
      → adc_read b ch 1 (d, s) ≡ (minus_one, (d, (select_channel d.base.bus s).1))
  unfolding adc_read
  lost d s ch h e = rw e (ground arith)

  update_lost :
      (d : Ds2450) (s : St) (ch : ℕ)
      → ch < 4
      → (select_channel d.base.bus s).0 ≡ true
      → (reset (select_channel d.base.bus s).1).0 ≡ true
      → (select_channel d.base.bus (converted d ch s)).0 ≡ false
      → volt_update b ch (d, s) ≡ (
        true,
        (
          record d { volts = set d.volts ch (minus_one * 5) },
          (select_channel d.base.bus (converted d ch s)).1,
        ),
      )
  unfolding volt_update
  update_lost d s ch h chosen there lost' =
      rw (started d s ch h chosen there, lost d (converted d ch s) ch h lost') refl

  text_lost :
      (d : Ds2450) (s : St) (ch : ℕ)
      → ch < 4
      → length d.volts ≡ 4
      → (select_channel d.base.bus s).0 ≡ true
      → (reset (select_channel d.base.bus s).1).0 ≡ true
      → (select_channel d.base.bus (converted d ch s)).0 ≡ false
      → (fs_read_volt b ch true (d, s)).0 ≡ some (codes "320.00")
  unfolding fs_read_volt adc_get
  text_lost d s ch h l chosen there lost' =
      rw (update_lost d s ch h chosen there lost')
        (rw (get_or-set_self d.volts ch (minus_one * 5) (omega arith)) (ground (arith, most)))

  -- An uncached read of one channel, whose conversion was started and whose bus cannot be
  -- chosen any more for the result, answers "320.00": the -1 of `adc_read` is taken for a
  -- value, and the text is longer than the four characters that a buffer of five bytes, which
  -- is accepted, has room for.
  pub r_volt-lost :
      (d : Ds2450) (s : St) (ch size : ℕ)
      → ch < 4
      → 5 ≤ size
      → length d.volts ≡ 4
      → (select_channel d.base.bus s).0 ≡ true
      → (reset (select_channel d.base.bus s).1).0 ≡ true
      → (select_channel d.base.bus (converted d ch s)).0 ≡ false
      → (r_volt b size true ch (d, s)).0 ≡ text (codes "320.00")
  unfolding r_volt
  r_volt-lost d s ch size h hs l chosen there lost' =
      ground (arith, text_lost d s ch h l chosen there lost')

  -- What a start of a conversion, and a read, leave.
  start_keeps : (d : Ds2450) (s : St) (ch : ℕ) → ch < 4 → ((adc_read b ch 0 (d, s)).1.0 ≡ d)
  unfolding adc_read
  start_keeps d s ch h = ground arith

  read_leaves :
      (d : Ds2450) (s : St) (ch : ℕ)
      → ch < 4
      → (((adc_read b ch 1 (d, s)).0 ≡ minus_one) × ((adc_read b ch 1 (d, s)).1.0 ≡ d))
        ⊎ (((adc_read b ch 1 (d, s)).0 ≡ get_or (adc_read b ch 1 (d, s)).1.0.dat ch 0)
            × ((adc_read b ch 1 (d, s)).1.0.volts ≡ d.volts))
  unfolding adc_read
  read_leaves d s ch h = elim (Bool-cases (select_channel d.base.bus s).0) [
    | inr e ↦ rw e (inl (ground arith))
    | inl e ↦ rw e (elim (Bool-cases (reset (select_channel d.base.bus s).1).0) [
      | inr e2 ↦ rw e2 (inl (ground arith))
      | inl e2 ↦ rw e2 (inr (ground arith))
    ])
  ]

  pub volt_update-cases :
      (d : Ds2450) (s : St) (ch : ℕ)
      → ch < 4
      → ((volt_update b ch (d, s)).0 ≡ false) × ((volt_update b ch (d, s)).1.0 ≡ d)
        ⊎ (raw : ℕ) × ((volt_update b ch (d, s)).0 ≡ true)
          × ((volt_update b ch (d, s)).1.0.volts ≡ set d.volts ch (raw * 5))
          × ((raw ≡ minus_one) ⊎ (raw ≡ get_or (volt_update b ch (d, s)).1.0.dat ch 0))
  unfolding volt_update
  volt_update-cases d s ch h =
      let (d1, s1) = (adc_read b ch 0 (d, s)).1 in
      let same = start_keeps d s ch h in
      let left = read_leaves d1 s1 ch h in
      elim (Bool-cases ((adc_read b ch 0 (d, s)).0 == 0)) [
        | inr e ↦ rw e (inl (refl, same))
        | inl e ↦ rw e (
            inr (
              (adc_read b ch 1 (d1, s1)).0,
              refl,
              elim left [
                | inl (_, k) ↦
                    ap (λ (x : Ds2450). set x.volts ch ((adc_read b ch 1 (d1, s1)).0 * 5))
                      (k ∙ same)
                | inr (_, k) ↦
                    ap (λ (x : List ℕ). set x ch ((adc_read b ch 1 (d1, s1)).0 * 5))
                      (k ∙ ap (λ (x : Ds2450). x.volts) same)
              ],
              elim left [ inl (k, _) ↦ inl k | inr (k, _) ↦ inr k ],
            ))
      ]
