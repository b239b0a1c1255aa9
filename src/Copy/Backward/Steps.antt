-- ===== src/Copy/Backward/Steps.antt =====
-- The backward half of memcpy.c, its moves by units and its first phase.
use cheritest.Common.{
  Run, ok, ℕ, zero, suc, ◌+◌, ◌-◌, ◌*◌, ◌%◌, ◌≤◌, ◌<◌, ◌≡◌, ◌≢◌, refl, ap, ◌∙◌, ◌⊎◌, inl, inr, true,
  arith, Bool-cases,
}
use cheritest.Ctests.Memory.{Memory}
use cheritest.Copy.Copied.{Units, FillsNone}
use cheritest.Copy.Fills.{bytes_down}
use cheritest.Copy.{
  word_mod, sub64, Bounds, Cursor, step_down, consume, misaligned, align_down_count, align_down,
}
use cheritest.Copy.Loops.{Covers, down_to, step_down-down_to}
use cheritest.Copy.Masks.{
  IsPointerSize, size_large, misaligned-false, mismatched-false, misaligned-true, mismatched-true,
  mask_size,
}

module _ (d s n : ℕ) where
  -- Offset `k` is on a boundary of `p` bytes in both blocks, or fewer than `left` bytes remain.
  abbrev pub Ready : (p left k : ℕ) → Type 0
  Ready p left k = ((d + k) % p ≡ 0) × ((s + k) % p ≡ 0) ⊎ (k < left)

  -- Offset `k` is the last boundary of words in the block, or nothing is left.
  abbrev pub Near : (k : ℕ) → Type 0
  Near k = ((n < k + 8) × ((d + k) % 8 ≡ 0)) ⊎ (k ≡ 0)

  -- No capability could be moved to a place that the last bytes fill.
  abbrev pub Last : (p k : ℕ) → Type 0
  Last p k = FillsNone p d s (k % p) n 0 n

module _ (caps : Bounds) (p : ℕ) (size : IsPointerSize p) (m : Memory) (d s n : ℕ)
    (fd : d + n < word_mod) (fs : s + n < word_mod) (within : Covers caps d s n)
    (apart : s < d) where
  pub same_cursor :
      (k j len l : ℕ) → k ≡ j → len ≡ l → ok (down_to p m d s n k len) ≡ ok (down_to p m d s n j l)
  same_cursor k j len l e f = λ i. ok (down_to p m d s n (e i) (f i))

  -- `t` bytes in `r` units, down from offset `k`.
  pub retreat :
      (unit t r k len : ℕ)
      → 0 < unit
      → unit < word_mod
      → 0 < t
      → r * unit ≡ t
      → t ≤ k
      → k ≤ n
      → (d + (k - t)) % unit ≡ 0
      → (s + (k - t)) % unit ≡ 0
      → Units p d s unit k n (k - t) n
      → step_down caps p unit t (down_to p m d s n k len) ≡ ok (down_to p m d s n (k - t) len)
  retreat unit t zero k len pos small some_left whole fits le dal sal units = absurd (omega arith)
  retreat unit t (suc r) k len pos small some_left whole fits le dal sal units =
      let e : k ≡ k - suc r * unit + suc r * unit = omega arith in
      ap (λ j. step_down caps p unit t (down_to p m d s n j len)) e
      ∙ rw (← whole) (
          step_down-down_to p m d s caps size unit r (k - suc r * unit) n len within pos small fd fs
            (rw whole dal) (rw whole sal) apart (omega arith) (units_at r whole units))
    where
      units_at :
          (r : ℕ)
          → suc r * unit ≡ t
          → Units p d s unit k n (k - t) n
          → Units p d s unit (k - suc r * unit + suc r * unit) n (k - suc r * unit) n
      units_at r e (inl f) = inl f
      units_at r e (inr (ne, none)) =
          inr (ne, λ g big al sal low high. omega (arith, none g big al sal (omega arith) high))

  pub retreat_consumed :
      (unit t r k : ℕ)
      → 0 < unit
      → unit < word_mod
      → 0 < t
      → r * unit ≡ t
      → t ≤ k
      → k ≤ n
      → (d + (k - t)) % unit ≡ 0
      → (s + (k - t)) % unit ≡ 0
      → Units p d s unit k n (k - t) n
      → step_down caps p unit t (consume t (down_to p m d s n k k))
        ≡ ok (down_to p m d s n (k - t) (k - t))
  retreat_consumed unit t r k pos small some_left whole fits le dal sal units =
      retreat unit t r k (sub64 k t) pos small some_left whole fits le dal sal units
      ∙ same_cursor (k - t) (k - t) (sub64 k t) (k - t) refl (omega arith)

  -- A phase brings the cursor to some lower offset that is ready for the next.
  abbrev pub Phase : (Cursor → Run Cursor) → (q left k : ℕ) → (ℕ → Type 0) → Type 0
  Phase f q left k Q =
      (j : ℕ) × (f (down_to p m d s n k k) ≡ ok (down_to p m d s n j j))
      × (j ≤ n)
      × Ready d s n q left j
      × Q j

  align_down_count_lem :
      0 < n
      → misaligned 8 (s + n) (d + n) ≡ true
      → let t = align_down_count (down_to p m d s n n n) in
        (0 < t)
        × (t ≤ n)
        × Ready d s n 8 1 (n - t)
        × ((t < 9) ⊎ ((s + n) % 8 ≢ (d + n) % 8))
        × Near d s n (n - t)
  unfolding align_down_count
  align_down_count_lem pos off = grind (
    arith,
    misaligned-true 8 (s + n) (d + n) (inl refl) off,
    mismatched-false 8 (s + n) (d + n) (inl refl),
    mismatched-true 8 (s + n) (d + n) (inl refl),
    mask_size 8 (s + n) (inl refl),
  )

  pub align_down-Phase : 0 < n → Phase (align_down caps p) 8 1 n (Near d s n)
  unfolding align_down
  align_down-Phase pos = elim (Bool-cases (misaligned 8 (s + n) (d + n))) [
    | inl off ↦
        let t = align_down_count (down_to p m d s n n n) in
        let (some_left, fits, ready, small, near) = align_down_count_lem pos off in
        (
          n - t,
          rw off (
              retreat_consumed 1 t t n (omega arith) (omega arith) some_left (omega arith) fits
                (omega arith) (omega arith) (omega arith)
                (inr (omega (arith, size_large p size), bytes_down d s n p size t fits small))),
          omega arith,
          ready,
          near,
        )
    | inr on ↦
        let aligned = misaligned-false 8 (s + n) (d + n) (inl refl) on in
        (n, rw on, omega arith, inl (aligned.1, aligned.0), inl (omega arith, aligned.1))
  ]
