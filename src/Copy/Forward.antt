-- ===== src/Copy/Forward.antt =====
-- The forward half of memcpy.c, phase by phase.
pub mod Steps
pub mod Words
use cheritest.Common.{
  Run, ok, ℕ, zero, suc, ◌+◌, ◌-◌, ◌*◌, ◌/◌, ◌%◌, ◌≤◌, ◌<◌, ◌≡◌, ◌≢◌, refl, ap, sym, subst, ◌∙◌,
  ◌⊎◌, inl, inr, true, false, ◌&&◌, arith, Bool-cases, ◌==◌,
}
use native.Mathlib.Nat.{div-add-mod'}
use cheritest.Ctests.Memory.{Memory}
use cheritest.Copy.Copied.{Units, FillsNone}
use cheritest.Copy.Fills.{WordsTo, bytes_up, words_up, trail_up_aligned, trail_up_words}
use cheritest.Copy.{
  word_mod, sub64, bigptr, Bounds, Cursor, step_up, consume, misaligned, align_up_count,
  align_up_words_count, align_up, align_up_words, pointers_up, trail_up, copy_forward, unless_zero,
}
use cheritest.Copy.Loops.{Covers, up_to, step_up-up_to}
use cheritest.Copy.Masks.{
  IsPointerSize, by_size, size_pos, size_small, size_large, swap, misaligned-false,
  mismatched-false, misaligned-true, mismatched-true, mask_size,
}
use cheritest.Copy.Forward.Steps.{
  Ready, Near, Last, advance, advance_consumed, same_cursor, Phase, align_up-Phase,
}
use cheritest.Copy.Forward.Words.{align_up_words-Phase}

module _ (caps : Bounds) (p : ℕ) (size : IsPointerSize p) (m : Memory) (d s n : ℕ)
    (fd : d + n < word_mod) (fs : s + n < word_mod) (within : Covers caps d s n)
    (apart : (d < s) ⊎ (s + n ≤ d)) where
  -- Whole pointers: what is left is shorter than one.
  pointers_up_lem :
      (k len : ℕ)
      → Ready d s n p p k len
      → k + len ≡ n
      → pointers_up caps p (up_to p m d s k len) ≡ ok (up_to p m d s (k + len / p * p) len)
  unfolding pointers_up
  pointers_up_lem k len ready e = elim (Bool-cases (len / p == 0)) [
    | inl none_left ↦ rw none_left (
        same_cursor caps p size m d s n fd fs within apart k (k + len / p * p) len len
          (ground arith) refl)
    | inr some_left ↦ rw some_left (
        advance caps p size m d s n fd fs within apart p (len / p * p) (len / p) k len
          (size_pos p size) (size_small p size) (room some_left).0 refl (room some_left).1
          (room some_left).2 (room some_left).3 (inl refl))
  ]
    where
      room :
          (len / p == 0) ≡ false
          → (0 < len / p * p) × (k + len / p * p ≤ n) × ((d + k) % p ≡ 0) × ((s + k) % p ≡ 0)
      room some_left =
          by_size
            (λ p.
              (len / p == 0) ≡ false
              → Ready d s n p p k len
              → (0 < len / p * p) × (k + len / p * p ≤ n) × ((d + k) % p ≡ 0) × ((s + k) % p ≡ 0))
            p size (λ h r. ground arith) (λ h r. ground arith) (λ h r. ground arith) some_left ready

  trail_up_lem :
      (k len : ℕ)
      → k + len % p ≡ n
      → FillsNone p d s 0 k 0 n
      → trail_up caps p (up_to p m d s k len) ≡ ok (up_to p m d s n len)
  unfolding trail_up
  trail_up_lem k len e last = rw (mask_size p len size) (elim (Bool-cases (len % p == 0)) [
    | inl none_left ↦
        rw none_left
          (same_cursor caps p size m d s n fd fs within apart k n len len (ground arith) refl)
    | inr some_left ↦ rw some_left (
        advance caps p size m d s n fd fs within apart 1 (len % p) (len % p) k len (omega arith)
          (omega arith) (ground arith) (omega arith) (omega arith) (omega arith) (omega arith)
          (inr (
            omega (arith, size_large p size),
            λ g big al sal low high. last g big al sal low (omega arith),
          ))
        ∙ same_cursor caps p size m d s n fd fs within apart (k + len % p) n len len e refl)
  ])

  -- The forward half ends, and has copied all `n` bytes.
  pub copy_forward-copied :
      0 < n → (l : ℕ) × (copy_forward caps p (up_to p m d s 0 n) ≡ ok (up_to p m d s n l))
  unfolding copy_forward
  copy_forward-copied pos =
      let (j, l, first, e, ready, near) =
        align_up-Phase caps p size m d s n fd fs within apart pos in
      let (j', l', second, e', ready', last) =
        align_up_words-Phase caps p size m d s n fd fs within apart j l ready near e in
      (
        l',
        rw (first, second, pointers_up_lem j' l' ready' e')
            (trail_up_lem (j' + l' / p * p) l' (omega (arith, div-add-mod' l' p)) last),
      )
