-- ===== src/Copy/Masks.antt =====
-- The alignment tests of memcpy.c as arithmetic.
use cheritest.Common.{
  ℕ, ◌+◌, ◌-◌, ◌%◌, ◌≤◌, ◌<◌, ◌≡◌, ◌≢◌, ◌⊎◌, inl, inr, true, false, arith, bit_and,
}
use cheritest.Common.Bits.{
  mask_seven, mask_15, mask_31, or_mask_eight, or_mask_16, or_mask_32, xor_mask_eight, xor_mask_16,
  xor_mask_32,
}
use cheritest.Copy.{word_mod, misaligned, mismatched}

-- The sizes that `sizeof(ptr)` takes: no capabilities, and capabilities of 128 and 256 bits.
abbrev pub IsPointerSize : ℕ → Type 0
IsPointerSize p = (p ≡ 8) ⊎ ((p ≡ 16) ⊎ (p ≡ 32))

-- Proved at each size, it holds at every size.
pub by_size {ℓ} : (P : ℕ → Type ℓ) (p : ℕ) → IsPointerSize p → P 8 → P 16 → P 32 → P p
by_size P p (inl e) a b c = rw e a
by_size P p (inr (inl e)) a b c = rw e b
by_size P p (inr (inr e)) a b c = rw e c

module _ (p t d : ℕ) (size : IsPointerSize p) where
  pub misaligned-false : misaligned p t d ≡ false → (t % p ≡ 0) × (d % p ≡ 0)
  unfolding misaligned
  misaligned-false =
      by_size (λ p. misaligned p t d ≡ false → (t % p ≡ 0) × (d % p ≡ 0)) p size
        (λ h. ground (arith, or_mask_eight t d)) (λ h. ground (arith, or_mask_16 t d))
        (λ h. ground (arith, or_mask_32 t d))

  pub mismatched-false : mismatched p t d ≡ false → t % p ≡ d % p
  unfolding mismatched
  mismatched-false =
      by_size (λ p. mismatched p t d ≡ false → t % p ≡ d % p) p size
        (λ h. ground (arith, xor_mask_eight t d)) (λ h. ground (arith, xor_mask_16 t d))
        (λ h. ground (arith, xor_mask_32 t d))

  -- Pointers that can be aligned together but are not are both off the boundary.
  pub misaligned-true : misaligned p t d ≡ true → mismatched p t d ≡ false → t % p ≢ 0
  unfolding misaligned mismatched
  misaligned-true =
      by_size (λ p. misaligned p t d ≡ true → mismatched p t d ≡ false → t % p ≢ 0) p size
        (λ h g z. absurd (ground (arith, or_mask_eight t d, xor_mask_eight t d)))
        (λ h g z. absurd (ground (arith, or_mask_16 t d, xor_mask_16 t d)))
        (λ h g z. absurd (ground (arith, or_mask_32 t d, xor_mask_32 t d)))

pub mask_size : (p a : ℕ) → IsPointerSize p → bit_and a (p - 1) ≡ a % p
mask_size p a size =
    by_size (λ p. bit_and a (p - 1) ≡ a % p) p size (mask_seven a) (mask_15 a) (mask_31 a)

pub swap : {A B : Type 0} → A × B → B × A
swap p = (p.1, p.0)

pub size_pos : (p : ℕ) → IsPointerSize p → 0 < p
size_pos p size = grind arith

pub size_small : (p : ℕ) → IsPointerSize p → p < word_mod
size_small p size = grind arith

pub mismatched-true : (p t d : ℕ) → IsPointerSize p → mismatched p t d ≡ true → t % p ≢ d % p
unfolding mismatched
mismatched-true p t d size =
    by_size (λ p. mismatched p t d ≡ true → t % p ≢ d % p) p size
      (λ h e. ground (arith, xor_mask_eight t d)) (λ h e. ground (arith, xor_mask_16 t d))
      (λ h e. ground (arith, xor_mask_32 t d))

-- A place that a capability could move to shows that the blocks are aligned alike.
pub aligned_alike :
    (p d s g : ℕ)
    → IsPointerSize p
    → 8 < p
    → g % p ≡ 0
    → (s + (g - d)) % p ≡ 0
    → d ≤ g
    → (s % p ≡ d % p) × (s % 8 ≡ d % 8)
aligned_alike p d s g size =
    by_size
      (λ p. 8 < p → g % p ≡ 0 → (s + (g - d)) % p ≡ 0 → d ≤ g → (s % p ≡ d % p) × (s % 8 ≡ d % 8)) p
      size (λ big al sal le. absurd (omega arith)) (λ big al sal le. omega (arith, al, sal))
      (λ big al sal le. omega (arith, al, sal))

pub size_large : (p : ℕ) → IsPointerSize p → 7 < p
size_large p size = grind arith
