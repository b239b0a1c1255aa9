-- ===== src/Copy/Backward/Words.antt =====
-- The backward half of memcpy.c, its phase of words.
use cheritest.Common.{
  ok, ℕ, ◌+◌, ◌-◌, ◌*◌, ◌%◌, ◌≤◌, ◌<◌, ◌≡◌, refl, ◌⊎◌, inl, inr, true, false, ◌&&◌, arith,
  Bool-cases, ◌==◌,
}
use cheritest.Ctests.Memory.{Memory}
use cheritest.Copy.Copied.{Units, FillsNone}
use cheritest.Copy.Fills.{WordsTo, words_down, trail_down_aligned, trail_down_words}
use cheritest.Copy.{
  word_mod, bigptr, Bounds, step_down, consume, misaligned, align_down_words_count,
  align_down_words, unless_zero,
}
use cheritest.Copy.Loops.{Covers, down_to}
use cheritest.Copy.Masks.{
  IsPointerSize, by_size, swap, misaligned-false, mismatched-false, misaligned-true,
  mismatched-true, mask_size,
}
use cheritest.Copy.Backward.Steps.{Ready, Near, Last, retreat_consumed, same_cursor, Phase}

module _ (caps : Bounds) (p : ℕ) (size : IsPointerSize p) (m : Memory) (d s n : ℕ)
    (fd : d + n < word_mod) (fs : s + n < word_mod) (within : Covers caps d s n)
    (apart : s < d) where
  -- What the count in words achieves, if it is not zero and if it is.
  abbrev WordsCount : (p k t : ℕ) → Type 0
  WordsCount p k t =
      (t * 8 ≤ k)
      × ((t ≡ 0) ⊎ (((d + (k - t * 8)) % 8 ≡ 0) × ((s + (k - t * 8)) % 8 ≡ 0)))
      × Ready d s n p p (k - t * 8)
      × WordsTo p (s + k) (d + k) k ((d + k) % p) t

  abbrev WordsCountAt : (k p : ℕ) → Type 0
  WordsCountAt k p =
      misaligned p (s + k) (d + k) ≡ true
      → WordsCount p k (align_down_words_count p (down_to p m d s n k k))

  module _ (k : ℕ) (ready : Ready d s n 8 1 k) (near : Near d s n k) where
    words_count_8 : WordsCountAt k 8
    unfolding align_down_words_count
    words_count_8 off = grind (
      arith,
      misaligned-true 8 (s + k) (d + k) (inl refl) off,
      mismatched-false 8 (s + k) (d + k) (inl refl),
      mismatched-true 8 (s + k) (d + k) (inl refl),
      mask_size 8 (s + k) (inl refl),
    )

    words_count_16 : WordsCountAt k 16
    unfolding align_down_words_count
    words_count_16 off = grind (
      arith,
      misaligned-true 16 (s + k) (d + k) (inr (inl refl)) off,
      mismatched-false 16 (s + k) (d + k) (inr (inl refl)),
      mismatched-true 16 (s + k) (d + k) (inr (inl refl)),
      mask_size 16 (s + k) (inr (inl refl)),
    )

    words_count_32 : WordsCountAt k 32
    unfolding align_down_words_count
    words_count_32 off = grind (
      arith,
      misaligned-true 32 (s + k) (d + k) (inr (inr refl)) off,
      mismatched-false 32 (s + k) (d + k) (inr (inr refl)),
      mismatched-true 32 (s + k) (d + k) (inr (inr refl)),
      mask_size 32 (s + k) (inr (inr refl)),
    )

    pub align_down_words-Phase :
        k ≤ n
        → Phase caps p size m d s n fd fs within apart
            (align_down_words caps p)
            p
            p
            k
            (Last d s n p)
    unfolding align_down_words
    align_down_words-Phase le =
        let goes = bigptr p && misaligned p (s + k) (d + k) in
        let t = align_down_words_count p (down_to p m d s n k k) in
        elim (Bool-cases goes) [
          | inr stay ↦ (k, rw stay, le, stays stay, last_stays stay)
          | inl go ↦
              let off : misaligned p (s + k) (d + k) ≡ true = ground arith in
              let (fits, where_from, there, count) =
                by_size (WordsCountAt k) p size words_count_8 words_count_16 words_count_32 off in
              (
                k - t * 8,
                rw go (
                    moves t fits where_from
                      (inr (ground arith, words_down d s n p size k t le near count))),
                omega arith,
                there,
                trail_down_words d s n p size k t le near fits count,
              )
        ]
      where
        stays : (bigptr p && misaligned p (s + k) (d + k)) ≡ false → Ready d s n p p k
        stays =
            by_size (λ p. (bigptr p && misaligned p (s + k) (d + k)) ≡ false → Ready d s n p p k) p
              size (λ h. grind arith)
              (λ h. inl (swap (misaligned-false 16 (s + k) (d + k) (inr (inl refl)) h)))
              (λ h. inl (swap (misaligned-false 32 (s + k) (d + k) (inr (inr refl)) h)))

        last_stays : (bigptr p && misaligned p (s + k) (d + k)) ≡ false → Last d s n p k
        last_stays =
            by_size
              (λ p.
                (bigptr p && misaligned p (s + k) (d + k)) ≡ false → FillsNone p d s (k % p) n 0 n)
              p size (λ h g big. absurd (omega arith))
              (λ h.
                trail_down_aligned d s n 16 (inr (inl refl)) k
                  (misaligned-false 16 (s + k) (d + k) (inr (inl refl)) h).1)
              (λ h.
                trail_down_aligned d s n 32 (inr (inr refl)) k
                  (misaligned-false 32 (s + k) (d + k) (inr (inr refl)) h).1)

        moves :
            (t : ℕ)
            → t * 8 ≤ k
            → (t ≡ 0) ⊎ (((d + (k - t * 8)) % 8 ≡ 0) × ((s + (k - t * 8)) % 8 ≡ 0))
            → Units p d s 8 k n (k - t * 8) n
            → unless_zero t
                (step_down caps p 8 (t * 8) (consume (t * 8) (down_to p m d s n k k)))
                (down_to p m d s n k k)
              ≡ ok (down_to p m d s n (k - t * 8) (k - t * 8))
        moves t fits where_from units = elim (Bool-cases (t == 0)) [
          | inl none_left ↦ rw none_left (
              same_cursor caps p size m d s n fd fs within apart k (k - t * 8) k (k - t * 8)
                (ground arith) (ground arith))
          | inr some_left ↦ rw some_left (
              retreat_consumed caps p size m d s n fd fs within apart 8 (t * 8) t k (omega arith)
                (omega arith) (ground arith) refl fits le (grind arith) (grind arith) units)
        ]
