-- ===== src/Copy/Fills.antt =====
-- memcpy.c: the loops over bytes and words fill no place that a capability could move to.
use cheritest.Common.{ℕ, ◌+◌, ◌-◌, ◌*◌, ◌/◌, ◌%◌, ◌≤◌, ◌<◌, ◌≡◌, ◌≢◌, ◌⊎◌, inl, inr, arith}
use native.Mathlib.Nat.{mod-le}
use cheritest.Copy.Masks.{IsPointerSize, by_size, aligned_alike}
use cheritest.Copy.Copied.{FillsNone}

-- What the count of words is: everything if the addresses `a` and `b` cannot be aligned or the rest
-- `len` is short, else as far as to the boundary, `gap` bytes away.
abbrev pub WordsTo : (p a b len gap t : ℕ) → Type 0
WordsTo p a b len gap t =
    ((a % p ≢ b % p) × (t ≡ len / 8))
    ⊎ (((len < p) × (t ≡ len / 8)) ⊎ ((p ≤ len) × (t * 8 ≡ gap) × (gap < p)))

module _ (d s n p : ℕ) (size : IsPointerSize p) where
  -- Blocks that are not aligned alike at some offset have no place that a capability could move to.
  apart_none :
      (k : ℕ)
      → (s + k) % p ≢ (d + k) % p
      → (g : ℕ) → 8 < p
      → g % p ≡ 0
      → (s + (g - d)) % p ≡ 0
      → d ≤ g
      → ⊥
  apart_none k ne g big al sal le =
      by_size (λ p. (s + k) % p ≢ (d + k) % p → g % p ≡ 0 → (s + (g - d)) % p ≡ 0 → ⊥) p size
        (λ ne al sal. absurd (omega (arith, le, ne, al, sal)))
        (λ ne al sal. absurd (omega (arith, le, ne, al, sal)))
        (λ ne al sal. absurd (omega (arith, le, ne, al, sal))) ne al sal

  pub bytes_up : (t : ℕ) → (t < 8) ⊎ (s % 8 ≢ d % 8) → FillsNone p d s 0 0 0 (0 + t)
  bytes_up t h g big al sal low high =
      absurd (omega (arith, aligned_alike p d s g size big al sal (omega arith)))

  -- The loop over words starts within a word of the start of the block, at a boundary of words.
  pub words_up :
      (k len t : ℕ)
      → ((k < 8) × ((d + k) % 8 ≡ 0)) ⊎ (len ≡ 0)
      → WordsTo p (s + k) (d + k) len (p - (d + k) % p) t
      → FillsNone p d s 0 k 0 (k + t * 8)
  words_up k len t near w g big al sal low high =
      by_size
        (λ p.
          8 < p
          → g % p ≡ 0
          → (s + (g - d)) % p ≡ 0
          → g + p ≤ d + (k + t * 8)
          → WordsTo p (s + k) (d + k) len (p - (d + k) % p) t
          → (d + 0 ≤ g) × (g + p ≤ d + k))
        p size (λ big al sal high w. absurd (omega arith))
        (λ big al sal high w. omega (arith, low, near, al, sal, high, w))
        (λ big al sal high w. omega (arith, low, near, al, sal, high, w)) big al sal high w

  -- The bytes that are left at the end.
  pub trail_up_aligned :
      (j l : ℕ) → j + l ≡ n → (d + j) % p ≡ 0 → FillsNone p d s 0 (j + l / p * p) 0 n
  trail_up_aligned j l e at g big al sal low high =
      by_size
        (λ p.
          g % p ≡ 0 → g + p ≤ d + n → (d + j) % p ≡ 0 → (d + 0 ≤ g) × (g + p ≤ d + (j + l / p * p)))
        p size (λ al high at. omega (arith, low, e, al, high, at))
        (λ al high at. omega (arith, low, e, al, high, at))
        (λ al high at. omega (arith, low, e, al, high, at)) al high at

  pub trail_up_short :
      (k len : ℕ)
      → ((k < 8) × ((d + k) % 8 ≡ 0)) ⊎ (len ≡ 0)
      → len < p
      → k + len ≡ n
      → FillsNone p d s 0 k 0 n
  trail_up_short k len near short e g big al sal low high =
      by_size (λ p. 8 < p → len < p → g % p ≡ 0 → g + p ≤ d + n → (d + 0 ≤ g) × (g + p ≤ d + k)) p
        size (λ big short al high. absurd (omega arith))
        (λ big short al high. omega (arith, low, e, near, al, high, short))
        (λ big short al high. omega (arith, low, e, near, al, high, short)) big short al high

  -- What the loop over words leaves.
  pub trail_up_words :
      (k len t : ℕ)
      → ((k < 8) × ((d + k) % 8 ≡ 0)) ⊎ (len ≡ 0)
      → k + len ≡ n
      → t * 8 ≤ len
      → WordsTo p (s + k) (d + k) len (p - (d + k) % p) t
      → FillsNone p d s 0 (k + t * 8 + (len - t * 8) / p * p) 0 n
  trail_up_words k len t near e fits (inl (ne, _)) =
      λ g big al sal low high. absurd (apart_none k ne g big al sal (omega arith))
  trail_up_words k len t near e fits (inr (inl (short, _))) = λ g big al sal low high.
      omega (arith, trail_up_short k len near short e g big al sal low high)
  trail_up_words k len t near e fits (inr (inr (_, gap, less))) =
      trail_up_aligned (k + t * 8) (len - t * 8) (omega arith) (
        by_size (λ p. t * 8 ≡ p - (d + k) % p → (d + (k + t * 8)) % p ≡ 0) p size
          (λ gap. omega (arith, gap)) (λ gap. omega (arith, gap)) (λ gap. omega (arith, gap)) gap)

  pub bytes_down :
      (t : ℕ) → t ≤ n → (t < 9) ⊎ ((s + n) % 8 ≢ (d + n) % 8) → FillsNone p d s n n (n - t) n
  bytes_down t fits h g big al sal low high =
      absurd (omega (arith, aligned_alike p d s g size big al sal (omega arith)))

  -- Going down, the loop over words starts within a word of the end of the block.
  pub words_down :
      (k t : ℕ)
      → k ≤ n
      → ((n < k + 8) × ((d + k) % 8 ≡ 0)) ⊎ (k ≡ 0)
      → WordsTo p (s + k) (d + k) k ((d + k) % p) t
      → FillsNone p d s k n (k - t * 8) n
  words_down k t fits near w g big al sal low high =
      by_size
        (λ p.
          8 < p
          → g % p ≡ 0
          → (s + (g - d)) % p ≡ 0
          → g + p ≤ d + n
          → WordsTo p (s + k) (d + k) k ((d + k) % p) t
          → (d + k ≤ g) × (g + p ≤ d + n))
        p size (λ big al sal high w. absurd (omega arith))
        (λ big al sal high w. omega (arith, low, fits, near, al, sal, high, w))
        (λ big al sal high w. omega (arith, low, fits, near, al, sal, high, w)) big al sal high w

  pub trail_down_aligned : (j : ℕ) → (d + j) % p ≡ 0 → FillsNone p d s (j % p) n 0 n
  trail_down_aligned j at g big al sal low high =
      by_size (λ p. g % p ≡ 0 → g + p ≤ d + n → (d + j) % p ≡ 0 → (d + j % p ≤ g) × (g + p ≤ d + n))
        p size (λ al high at. omega (arith, low, al, high, at))
        (λ al high at. omega (arith, low, al, high, at))
        (λ al high at. omega (arith, low, al, high, at)) al high at

  pub trail_down_short :
      (k : ℕ)
      → k ≤ n
      → ((n < k + 8) × ((d + k) % 8 ≡ 0)) ⊎ (k ≡ 0)
      → k < p
      → FillsNone p d s k n 0 n
  trail_down_short k fits near short g big al sal low high =
      by_size (λ p. 8 < p → k < p → g % p ≡ 0 → g + p ≤ d + n → (d + k ≤ g) × (g + p ≤ d + n)) p
        size (λ big short al high. absurd (omega arith))
        (λ big short al high. omega (arith, low, fits, near, al, high, short))
        (λ big short al high. omega (arith, low, fits, near, al, high, short)) big short al high

  pub trail_down_words :
      (k t : ℕ)
      → k ≤ n
      → ((n < k + 8) × ((d + k) % 8 ≡ 0)) ⊎ (k ≡ 0)
      → t * 8 ≤ k
      → WordsTo p (s + k) (d + k) k ((d + k) % p) t
      → FillsNone p d s ((k - t * 8) % p) n 0 n
  trail_down_words k t fits near le (inl (ne, _)) =
      λ g big al sal low high. absurd (apart_none k ne g big al sal (omega arith))
  trail_down_words k t fits near le (inr (inl (short, _))) = λ g big al sal low high.
      omega (arith, trail_down_short k fits near short g big al sal low high, mod-le (k - t * 8) p)
  trail_down_words k t fits near le (inr (inr (_, gap, less))) = trail_down_aligned (k - t * 8) (
      by_size (λ p. t * 8 ≡ (d + k) % p → (d + (k - t * 8)) % p ≡ 0) p size
        (λ gap. omega (arith, gap, le)) (λ gap. omega (arith, gap, le))
        (λ gap. omega (arith, gap, le)) gap)
