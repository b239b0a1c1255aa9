-- ===== src/Copy/Backward.antt =====
-- The backward half of memcpy.c, phase by phase.
pub mod Steps
pub mod Words
use native.Mathlib.Nat.{div-add-mod'}
use cheritest.Common.{
  Run, ok, ℕ, zero, suc, ◌+◌, ◌-◌, ◌*◌, ◌/◌, ◌%◌, ◌≤◌, ◌<◌, ◌≡◌, ◌≢◌, refl, ap, ◌∙◌, ◌⊎◌, inl, inr,
  true, false, ◌&&◌, arith, Bool-cases, ◌==◌,
}
use cheritest.Ctests.Memory.{Memory}
use cheritest.Copy.Copied.{Units, FillsNone}
use cheritest.Copy.Fills.{WordsTo, bytes_down, words_down, trail_down_aligned, trail_down_words}
use cheritest.Copy.{
  word_mod, sub64, add64, bigptr, Bounds, Cursor, step_down, consume, misaligned, align_down_count,
  align_down_words_count, align_down, align_down_words, pointers_down, trail_down, copy_backward,
  unless_zero,
}
use cheritest.Copy.Loops.{Covers, down_to, step_down-down_to}
use cheritest.Copy.Masks.{
  IsPointerSize, by_size, size_pos, size_small, size_large, swap, misaligned-false,
  mismatched-false, misaligned-true, mismatched-true, mask_size,
}
use cheritest.Copy.Backward.Steps.{
  Ready, Near, Last, retreat, retreat_consumed, same_cursor, Phase, align_down-Phase,
}
use cheritest.Copy.Backward.Words.{align_down_words-Phase}

module _ (caps : Bounds) (p : ℕ) (size : IsPointerSize p) (m : Memory) (d s n : ℕ)
    (fd : d + n < word_mod) (fs : s + n < word_mod) (within : Covers caps d s n)
    (apart : s < d) where
  -- Whole pointers: what is left is shorter than one.
  pointers_down_lem :
      (k : ℕ)
      → Ready d s n p p k
      → k ≤ n
      → pointers_down caps p (down_to p m d s n k k) ≡ ok (down_to p m d s n (k % p) k)
  unfolding pointers_down
  pointers_down_lem k ready le = elim (Bool-cases (k / p == 0)) [
    | inl none_left ↦ rw none_left (
        same_cursor caps p size m d s n fd fs within apart k (k % p) k k
          (ground (arith, div-add-mod' k p)) refl)
    | inr some_left ↦
        let r = room some_left in
        rw some_left (
          retreat caps p size m d s n fd fs within apart p (k / p * p) (k / p) k k (size_pos p size)
            (size_small p size) r.0 refl r.1 le r.2 r.3 (inl refl)
          ∙ same_cursor caps p size m d s n fd fs within apart (k - k / p * p) (k % p) k k
              (omega (arith, div-add-mod' k p)) refl)
  ]
    where
      room :
          (k / p == 0) ≡ false
          → (0 < k / p * p)
            × (k / p * p ≤ k)
            × ((d + (k - k / p * p)) % p ≡ 0)
            × ((s + (k - k / p * p)) % p ≡ 0)
      room some_left =
          by_size
            (λ p.
              (k / p == 0) ≡ false
              → Ready d s n p p k
              → (0 < k / p * p)
                × (k / p * p ≤ k)
                × ((d + (k - k / p * p)) % p ≡ 0)
                × ((s + (k - k / p * p)) % p ≡ 0))
            p size (λ h r. ground arith) (λ h r. ground arith) (λ h r. ground arith) some_left ready

  trail_down_lem :
      (k : ℕ)
      → k ≤ n
      → k % p ≤ k
      → Last d s n p k
      → trail_down caps p (down_to p m d s n (k % p) k) ≡ ok (down_to p m d s n 0 k)
  unfolding trail_down
  trail_down_lem k le part last = rw (mask_size p k size) (elim (Bool-cases (k % p == 0)) [
    | inl none_left ↦
        rw none_left
          (same_cursor caps p size m d s n fd fs within apart (k % p) 0 k k (ground arith) refl)
    | inr some_left ↦ rw some_left (
        retreat caps p size m d s n fd fs within apart 1 (k % p) (k % p) (k % p) k (omega arith)
          (omega arith) (ground arith) (omega arith) (omega arith) (omega arith) (omega arith)
          (omega arith)
          (inr (
            omega (arith, size_large p size),
            λ g big al sal low high. last g big al sal (omega arith) high,
          ))
        ∙ same_cursor caps p size m d s n fd fs within apart (k % p - k % p) 0 k k (omega arith)
            refl)
  ])

  -- The backward half ends, and has copied all `n` bytes.
  pub copy_backward-copied :
      0 < n
      → (l : ℕ) × (copy_backward caps p (record { dst = d; src = s; length = n; mem = m })
          ≡ ok (down_to p m d s n 0 l))
  unfolding copy_backward
  copy_backward-copied pos =
      let (j, first, e, ready, near) =
        align_down-Phase caps p size m d s n fd fs within apart pos in
      let (j', second, e', ready', last) =
        align_down_words-Phase caps p size m d s n fd fs within apart j ready near e in
      (
        j',
        rw (at_top, first, second, pointers_down_lem j' ready' e')
            (trail_down_lem j' e' (omega (arith, div-add-mod' j' p)) last),
      )
    where
      at_top :
          ◌≡◌ {A = Cursor}
            (record { dst = add64 d n; src = add64 s n; length = n; mem = m })
            (down_to p m d s n n n)
      at_top = ground arith
