-- ===== src/Ctests/Memcpy/Copied.antt =====
-- libc_memcpy.c: what one call of the function under test leaves.
use cheritest.Common.{
  ℕ, ◌+◌, ◌-◌, ◌%◌, ◌^◌, ◌≤◌, ◌<◌, ◌≡◌, ◌≢◌, ◌⊎◌, inl, inr, ◌∙◌, refl, ap, sym, subst, true, false,
  ◌&&◌, ◌==◌, if◌then◌else◌, ltb, leb, Run, ok, fault, ◌>>=◌, arith,
}
use cheritest.Ctests.Memory.{Memory, Layout, IsLayout}
use cheritest.Ctests.Memcpy.{moved, invalidate, call, invalidated}
use cheritest.Ctests.Memcpy.Laws.{Apart, IsBlockCopy, IsMemcpy, Good}
use cheritest.Ctests.Memcpy.Source.{IsSource, IsSource-stays, invalidate-IsSource}

-- Addresses around one that is aligned for a capability.
module _ (p : ℕ) (size : (p ≡ 16) ⊎ (p ≡ 32)) (a : ℕ) (aligned : a % p ≡ 0) where
  aligned_y : (a + 32) % p ≡ 0
  aligned_y = elim size [
    | inl e ↦ subst (λ q. a % q ≡ 0 → (a + 32) % q ≡ 0) (sym e) (λ h. omega (arith, h)) aligned
    | inr e ↦ subst (λ q. a % q ≡ 0 → (a + 32) % q ≡ 0) (sym e) (λ h. omega (arith, h)) aligned
  ]

  not_aligned : (a + 1 + 32) % p ≢ 0
  not_aligned = elim size [
    | inl e ↦
        subst (λ q. a % q ≡ 0 → (a + 1 + 32) % q ≢ 0) (sym e) (λ h k. omega (arith, h, k)) aligned
    | inr e ↦
        subst (λ q. a % q ≡ 0 → (a + 1 + 32) % q ≢ 0) (sym e) (λ h k. omega (arith, h, k)) aligned
  ]

-- The function under test, and two structures that are aligned, apart and in the address space.
pub record Trial (l : Layout) (memcpy : (dst src n : ℕ) → Memory → Run (ℕ × Memory)) (t1 t2 : ℕ)
    : Type 0 where
  pub il : IsLayout l
  pub im : IsMemcpy l memcpy
  pub at1 : t1 % l.psize ≡ 0
  pub at2 : t2 % l.psize ≡ 0
  pub apart : (t1 + (64 + l.psize) ≤ t2) ⊎ (t2 + (64 + l.psize) ≤ t1)
  pub in1 : t1 + (64 + l.psize) < 2 ^ 64
  pub in2 : t2 + (64 + l.psize) < 2 ^ 64

module _ (l : Layout) (memcpy : (dst src n : ℕ) → Memory → Run (ℕ × Memory)) (t1 t2 : ℕ)
    (trial : Trial l memcpy t1 t2) where
  open l use {psize}
  open trial use {il, im, at1, at2, apart, in1, in2}

  pub invalidated-Good :
      (m : Memory) → IsSource l t1 t2 m → Good (IsSource l t1 t2) (invalidated l t2 m)
  invalidated-Good m h = (invalidate l t2 m, refl, invalidate-IsSource l t1 t2 at2 apart m h)

  -- After a copy of `n` bytes from the offset `j` of the first to the offset `k` of the second.
  pub record IsCopy (k j n : ℕ) (m : Memory) : Type 0 where
    pub source : IsSource l t1 t2 m
    pub copied : (i : ℕ) → k ≤ i → i < k + n → m.byte (t2 + i) ≡ m.byte (t1 + (j + (i - k)))
    pub tag_kept : k ≡ j → k ≤ 32 → 32 + psize ≤ k + n → m.tag (t2 + 32) ≡ true
    pub tag_gone : k ≡ 0 → j ≡ 1 → 32 + psize ≤ n → m.tag (t2 + 32) ≡ false

  module _ (k j n d s : ℕ) (ed : d ≡ t2 + k) (es : s ≡ t1 + j) (fits : k + n ≤ 64 + psize)
      (fits' : j + n ≤ 64 + psize) (m : Memory) (h : IsSource l t1 t2 m) where
    blocks : Apart d s n
    blocks = omega (arith, apart, ed, es, fits, fits')

    run : (m' : Memory) × (memcpy d s n m ≡ ok (d, m')) × IsBlockCopy l d s n m m'
    run = im.ends d s n m blocks (omega (arith, ed, fits, in2)) (omega (arith, es, fits', in1))

    abbrev after : Memory
    after = run.0

    promise : IsBlockCopy l d s n m after
    promise = run.2

    byte_outside : (b : ℕ) → t1 ≤ b → b < t1 + (64 + psize) → after.byte b ≡ m.byte b
    byte_outside b c e =
        promise.bytes b
        ∙ ap (λ t. if t then m.byte (s + (b - d)) else m.byte b) {x = leb d b && ltb b (d + n)}
            {y = false} (ground (arith, apart, ed, fits))

    byte_inside : (i : ℕ) → k ≤ i → i < k + n → after.byte (t2 + i) ≡ m.byte (t1 + (j + (i - k)))
    byte_inside i c e =
        promise.bytes (t2 + i)
        ∙ ap (λ t. if t then m.byte (s + (t2 + i - d)) else m.byte (t2 + i))
            {x = leb d (t2 + i) && ltb (t2 + i) (d + n)} {y = true} (ground (arith, ed))
        ∙ ap m.byte {x = s + (t2 + i - d)} {y = t1 + (j + (i - k))} (omega (arith, ed, es))

    y1_aligned : (t1 + 32) % psize ≡ 0
    y1_aligned = aligned_y psize il.size t1 at1

    y2_aligned : (t2 + 32) % psize ≡ 0
    y2_aligned = aligned_y psize il.size t2 at2

    call-IsSource : IsSource l t1 t2 after
    call-IsSource =
        IsSource-stays l t1 t2 m after byte_outside
          (promise.tag_outside (t1 + 32) y1_aligned (omega (arith, apart, ed, fits))) h

    tag_moves : k ≡ j → k ≤ 32 → 32 + psize ≤ k + n → after.tag (t2 + 32) ≡ true
    tag_moves e c f =
        promise.tag_moved (t2 + 32) y2_aligned (omega (arith, ed)) (omega (arith, ed))
          (ap (λ a. a % psize) from ∙ y1_aligned)
        ∙ ap m.tag from
        ∙ h.tagged
      where
        from : s + (t2 + 32 - d) ≡ t1 + 32
        from = omega (arith, ed, es, e, c)

    tag_goes : k ≡ 0 → j ≡ 1 → 32 + psize ≤ n → after.tag (t2 + 32) ≡ false
    tag_goes e e' f =
        promise.tag_lost (t2 + 32) y2_aligned (omega (arith, ed)) (omega (arith, ed, e))
          (λ z. not_aligned psize il.size t1 at1 (ap (λ a. a % psize) (sym from) ∙ z))
      where
        from : s + (t2 + 32 - d) ≡ t1 + 1 + 32
        from = omega (arith, ed, es, e, e')

    after-IsCopy : IsCopy k j n after
    after-IsCopy = record {
      source = call-IsSource;
      copied = λ i c e. byte_inside i c e ∙ unchanged (j + (i - k)) (omega (arith, fits'));
      tag_kept = tag_moves;
      tag_gone = tag_goes;
    }
      where
        unchanged : (i : ℕ) → i < 64 + psize → m.byte (t1 + i) ≡ after.byte (t1 + i)
        unchanged i c = sym (byte_outside (t1 + i) (omega arith) (omega arith))

    call-Good : Good (IsCopy k j n) (call l memcpy d d s n m)
    unfolding call
    call-Good = (
      after,
      ap (λ r. r >>= λ (cpy, m'). if cpy == d then ok m' else fault) run.1
          ∙ ap (λ b. if b then ok after else fault) {x = d == d} {y = true} (ground arith),
      after-IsCopy,
    )

  -- Each step of a test, from the offset `j` to the offset `k`.
  abbrev pub IsStep : ((dst src n : ℕ) → Memory → Run Memory) → Type 0
  IsStep step =
      (k j n d s : ℕ)
      → d ≡ t2 + k
      → s ≡ t1 + j
      → k + n ≤ 64 + psize
      → j + n ≤ 64 + psize
      → (m : Memory) → IsSource l t1 t2 m
      → Good (IsCopy k j n) (step d s n m)

  pub call-IsStep : IsStep (λ d. call l memcpy d d)
  call-IsStep k j n d s ed es fits fits' m h = call-Good k j n d s ed es fits fits' m h

  pub moved-IsStep : IsStep (moved l memcpy)
  unfolding moved
  moved-IsStep k j n d s ed es fits fits' m h = (
    after k j n d s ed es fits fits' m h,
    ap (λ r. r >>= λ (cpy, m'). ok m') (run k j n d s ed es fits fits' m h).1,
    after-IsCopy k j n d s ed es fits fits' m h,
  )
