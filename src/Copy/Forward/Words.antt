-- ===== src/Copy/Forward/Words.antt =====
-- The forward half of memcpy.c, its phase of words.
use cheritest.Common.{
  ok, ℕ, ◌+◌, ◌-◌, ◌*◌, ◌/◌, ◌%◌, ◌≤◌, ◌<◌, ◌≡◌, refl, ◌⊎◌, inl, inr, true, false, ◌&&◌, arith,
  Bool-cases, ◌==◌,
}
use cheritest.Ctests.Memory.{Memory}
use cheritest.Copy.Copied.{Units, FillsNone}
use cheritest.Copy.Fills.{WordsTo, words_up, trail_up_aligned, trail_up_words}
use cheritest.Copy.{
  word_mod, bigptr, Bounds, step_up, consume, misaligned, align_up_words_count, align_up_words,
  unless_zero,
}
use cheritest.Copy.Loops.{Covers, up_to}
use cheritest.Copy.Masks.{
  IsPointerSize, by_size, swap, misaligned-false, mismatched-false, misaligned-true,
  mismatched-true, mask_size,
}
use cheritest.Copy.Forward.Steps.{Ready, Near, Last, advance_consumed, same_cursor, Phase}

module _ (caps : Bounds) (p : ℕ) (size : IsPointerSize p) (m : Memory) (d s n : ℕ)
    (fd : d + n < word_mod) (fs : s + n < word_mod) (within : Covers caps d s n)
    (apart : (d < s) ⊎ (s + n ≤ d)) where
  -- What the count in words achieves, if it is not zero and if it is.
  abbrev WordsCount : (p k len t : ℕ) → Type 0
  WordsCount p k len t =
      (t * 8 ≤ len)
      × ((t ≡ 0) ⊎ (((d + k) % 8 ≡ 0) × ((s + k) % 8 ≡ 0)))
      × Ready d s n p p (k + t * 8) (len - t * 8)
      × WordsTo p (s + k) (d + k) len (p - (d + k) % p) t

  abbrev WordsCountAt : (k len p : ℕ) → Type 0
  WordsCountAt k len p =
      misaligned p (s + k) (d + k) ≡ true
      → WordsCount p k len (align_up_words_count p (up_to p m d s k len))

  module _ (k len : ℕ) (ready : Ready d s n 8 1 k len) (near : Near d s n k len) where
    words_count_8 : WordsCountAt k len 8
    unfolding align_up_words_count
    words_count_8 off = grind (
      arith,
      misaligned-true 8 (s + k) (d + k) (inl refl) off,
      mismatched-false 8 (s + k) (d + k) (inl refl),
      mismatched-true 8 (s + k) (d + k) (inl refl),
      mask_size 8 (s + k) (inl refl),
    )

    words_count_16 : WordsCountAt k len 16
    unfolding align_up_words_count
    words_count_16 off = grind (
      arith,
      misaligned-true 16 (s + k) (d + k) (inr (inl refl)) off,
      mismatched-false 16 (s + k) (d + k) (inr (inl refl)),
      mismatched-true 16 (s + k) (d + k) (inr (inl refl)),
      mask_size 16 (s + k) (inr (inl refl)),
    )

    words_count_32 : WordsCountAt k len 32
    unfolding align_up_words_count
    words_count_32 off = grind (
      arith,
      misaligned-true 32 (s + k) (d + k) (inr (inr refl)) off,
      mismatched-false 32 (s + k) (d + k) (inr (inr refl)),
      mismatched-true 32 (s + k) (d + k) (inr (inr refl)),
      mask_size 32 (s + k) (inr (inr refl)),
    )

    pub align_up_words-Phase :
        k + len ≡ n
        → Phase caps p size m d s n fd fs within apart
            (align_up_words caps p)
            p
            p
            k
            len
            (Last d s n p)
    unfolding align_up_words
    align_up_words-Phase e =
        let goes = bigptr p && misaligned p (s + k) (d + k) in
        let t = align_up_words_count p (up_to p m d s k len) in
        elim (Bool-cases goes) [
          | inr stay ↦ (k, len, rw stay, e, stays stay, last_stays stay)
          | inl go ↦
              let off : misaligned p (s + k) (d + k) ≡ true = ground arith in
              let (fits, where_from, there, count) =
                by_size (WordsCountAt k len) p size words_count_8 words_count_16 words_count_32
                  off in
              (
                k + t * 8,
                len - t * 8,
                rw go (
                    moves t fits where_from
                      (inr (ground arith, words_up d s n p size k len t near count))),
                omega arith,
                there,
                trail_up_words d s n p size k len t near e fits count,
              )
        ]
      where
        stays : (bigptr p && misaligned p (s + k) (d + k)) ≡ false → Ready d s n p p k len
        stays =
            by_size
              (λ p. (bigptr p && misaligned p (s + k) (d + k)) ≡ false → Ready d s n p p k len) p
              size (λ h. grind arith)
              (λ h. inl (swap (misaligned-false 16 (s + k) (d + k) (inr (inl refl)) h)))
              (λ h. inl (swap (misaligned-false 32 (s + k) (d + k) (inr (inr refl)) h)))

        last_stays : (bigptr p && misaligned p (s + k) (d + k)) ≡ false → Last d s n p k len
        last_stays =
            by_size
              (λ p.
                (bigptr p && misaligned p (s + k) (d + k)) ≡ false
                → FillsNone p d s 0 (k + len / p * p) 0 n)
              p size (λ h g big. absurd (omega arith))
              (λ h.
                trail_up_aligned d s n 16 (inr (inl refl)) k len e
                  (misaligned-false 16 (s + k) (d + k) (inr (inl refl)) h).1)
              (λ h.
                trail_up_aligned d s n 32 (inr (inr refl)) k len e
                  (misaligned-false 32 (s + k) (d + k) (inr (inr refl)) h).1)

        moves :
            (t : ℕ)
            → t * 8 ≤ len
            → (t ≡ 0) ⊎ (((d + k) % 8 ≡ 0) × ((s + k) % 8 ≡ 0))
            → Units p d s 8 0 k 0 (k + t * 8)
            → unless_zero t
                (step_up caps p 8 (t * 8) (consume (t * 8) (up_to p m d s k len)))
                (up_to p m d s k len)
              ≡ ok (up_to p m d s (k + t * 8) (len - t * 8))
        moves t fits where_from units = elim (Bool-cases (t == 0)) [
          | inl none_left ↦ rw none_left (
              same_cursor caps p size m d s n fd fs within apart k (k + t * 8) len (len - t * 8)
                (ground arith) (ground arith))
          | inr some_left ↦ rw some_left (
              advance_consumed caps p size m d s n fd fs within apart 8 (t * 8) t k len
                (omega arith) (omega arith) (ground arith) (omega arith) e fits (grind arith)
                (grind arith) units)
        ]
