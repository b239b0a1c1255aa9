-- ===== src/Copy/Forward/Steps.antt =====
-- The forward half of memcpy.c, its moves by units and its first phase.
use cheritest.Common.{
  Run, ok, ℕ, zero, suc, ◌+◌, ◌-◌, ◌*◌, ◌/◌, ◌%◌, ◌≤◌, ◌<◌, ◌≡◌, ◌≢◌, refl, ap, sym, subst, ◌∙◌,
  ◌⊎◌, inl, inr, true, arith, Bool-cases,
}
use cheritest.Ctests.Memory.{Memory}
use cheritest.Copy.Copied.{Units, FillsNone}
use cheritest.Copy.Fills.{bytes_up}
use cheritest.Copy.{
  word_mod, sub64, Bounds, Cursor, step_up, consume, misaligned, align_up_count, align_up,
}
use cheritest.Copy.Loops.{Covers, up_to, step_up-up_to}
use cheritest.Copy.Masks.{
  IsPointerSize, size_large, misaligned-false, mismatched-false, misaligned-true, mismatched-true,
  mask_size,
}

module _ (d s n : ℕ) where
  -- Offset `k` is on a boundary of `p` bytes in both blocks, or fewer than `left` bytes remain.
  abbrev pub Ready : (p left k len : ℕ) → Type 0
  Ready p left k len = ((d + k) % p ≡ 0) × ((s + k) % p ≡ 0) ⊎ (len < left)

  -- Offset `k` is the first boundary of words in the block, or nothing is left.
  abbrev pub Near : (k len : ℕ) → Type 0
  Near k len = ((k < 8) × ((d + k) % 8 ≡ 0)) ⊎ (len ≡ 0)

  -- No capability could be moved to a place that the last bytes fill.
  abbrev pub Last : (p k len : ℕ) → Type 0
  Last p k len = FillsNone p d s 0 (k + len / p * p) 0 n

module _ (caps : Bounds) (p : ℕ) (size : IsPointerSize p) (m : Memory) (d s n : ℕ)
    (fd : d + n < word_mod) (fs : s + n < word_mod) (within : Covers caps d s n)
    (apart : (d < s) ⊎ (s + n ≤ d)) where
  -- `t` more bytes in units, from offset `k`.
  pub advance :
      (unit t r k len : ℕ)
      → 0 < unit
      → unit < word_mod
      → 0 < t
      → r * unit ≡ t
      → k + t ≤ n
      → (d + k) % unit ≡ 0
      → (s + k) % unit ≡ 0
      → Units p d s unit 0 k 0 (k + t)
      → step_up caps p unit t (up_to p m d s k len) ≡ ok (up_to p m d s (k + t) len)
  advance unit t r k len pos small some_left whole fits dal sal units = go r whole
    where
      go :
          (r : ℕ)
          → r * unit ≡ t
          → step_up caps p unit t (up_to p m d s k len) ≡ ok (up_to p m d s (k + t) len)
      go zero e = absurd (omega arith)
      go (suc r) e = rw (← e) (
          step_up-up_to p m d s caps size unit r k n len within (omega arith) pos small
            (omega arith) (omega arith) dal sal (grind arith)
            (subst (λ t. Units p d s unit 0 k 0 (k + t)) (sym e) units))

  pub advance_consumed :
      (unit t r k len : ℕ)
      → 0 < unit
      → unit < word_mod
      → 0 < t
      → r * unit ≡ t
      → k + len ≡ n
      → t ≤ len
      → (d + k) % unit ≡ 0
      → (s + k) % unit ≡ 0
      → Units p d s unit 0 k 0 (k + t)
      → step_up caps p unit t (consume t (up_to p m d s k len))
        ≡ ok (up_to p m d s (k + t) (len - t))
  advance_consumed unit t r k len pos small some_left whole e fits dal sal units =
      advance unit t r k (sub64 len t) pos small some_left whole (omega arith) dal sal units
      ∙ ap (λ l. ok (up_to p m d s (k + t) l)) (omega arith)

  pub same_cursor :
      (k j len l : ℕ) → k ≡ j → len ≡ l → ok (up_to p m d s k len) ≡ ok (up_to p m d s j l)
  same_cursor k j len l e f = λ i. ok (up_to p m d s (e i) (f i))

  -- A phase brings the cursor to some offset that is ready for the next.
  abbrev pub Phase : (Cursor → Run Cursor) → (q left k len : ℕ) → (ℕ → ℕ → Type 0) → Type 0
  Phase f q left k len Q =
      (j l : ℕ) × (f (up_to p m d s k len) ≡ ok (up_to p m d s j l))
      × (j + l ≡ n)
      × Ready d s n q left j l
      × Q j l

  align_up_count_lem :
      0 < n
      → misaligned 8 (s + 0) (d + 0) ≡ true
      → let t = align_up_count (up_to p m d s 0 n) in
        (0 < t)
        × (t ≤ n)
        × Ready d s n 8 1 t (n - t)
        × ((t < 8) ⊎ (s % 8 ≢ d % 8))
        × Near d s n t (n - t)
  unfolding align_up_count
  align_up_count_lem pos off = grind (
    arith,
    misaligned-true 8 (s + 0) (d + 0) (inl refl) off,
    mismatched-false 8 (s + 0) (d + 0) (inl refl),
    mismatched-true 8 (s + 0) (d + 0) (inl refl),
    mask_size 8 (s + 0) (inl refl),
  )

  pub align_up-Phase : 0 < n → Phase (align_up caps p) 8 1 0 n (Near d s n)
  unfolding align_up
  align_up-Phase pos = elim (Bool-cases (misaligned 8 (s + 0) (d + 0))) [
    | inl off ↦
        let t = align_up_count (up_to p m d s 0 n) in
        let (some_left, fits, ready, small, near) = align_up_count_lem pos off in
        (
          t,
          n - t,
          rw off (
              advance_consumed 1 t t 0 n (omega arith) (omega arith) some_left (omega arith)
                (omega arith) fits (omega arith) (omega arith)
                (inr (omega (arith, size_large p size), bytes_up d s n p size t small))
              ∙ ap (λ j. ok (up_to p m d s j (n - t))) (omega arith)),
          omega arith,
          ready,
          near,
        )
    | inr on ↦
        let aligned = misaligned-false 8 (s + 0) (d + 0) (inl refl) on in
        (0, n, rw on, omega arith, inl (aligned.1, aligned.0), inl (omega arith, aligned.1))
  ]
