-- ===== src/Ctests/Memcpy/Refine.antt =====
-- memcpy.c keeps the promises that the tests of memcpy and memmove rest on.
use cheritest.Common.{ℕ, ◌≡◌, ◌≢◌, ◌⊎◌, inl, inr, refl, ap, true, Run, ok, ◌>>=◌, arith}
use cheritest.Copy.{Bounds, Variant, handle_overlap, copy}
use cheritest.Copy.Loops.{Covers}
use cheritest.Copy.Masks.{IsPointerSize}
use cheritest.Copy.Correct.{block_copy, copy_apart, copy_overlap}
use cheritest.Ctests.Memory.{Memory, Layout}
use cheritest.Ctests.Memcpy.Laws.{IsBlockCopy, IsMemcpy, IsMemmove}

-- `return (dst0)`. bcopy returns nothing; its result is not used. The bounds of the capabilities that
-- a call copies through are a parameter.
unfoldable pub compiled :
    (bounds : (dst0 src0 length : ℕ) → Bounds) (v : Variant) (psize dst0 src0 length : ℕ)
    → Memory
    → Run (ℕ × Memory)
compiled bounds v psize dst0 src0 length m =
    copy v (bounds dst0 src0 length) psize dst0 src0 length m >>= λ m'. ok (dst0, m')

-- They cover the two blocks.
abbrev pub AllCovered : ((dst0 src0 length : ℕ) → Bounds) → Type 0
AllCovered bounds = (d s n : ℕ) → Covers (bounds d s n) d s n

module _ (l : Layout) (size : (l.psize ≡ 16) ⊎ (l.psize ≡ 32)) where
  pointer_size : IsPointerSize l.psize
  pointer_size = inr size

  block_copy-IsBlockCopy :
      (d s n : ℕ) (m : Memory)
      → (d ≢ s) ⊎ (n ≡ 0)
      → IsBlockCopy l d s n m (block_copy l.psize d s n m)
  block_copy-IsBlockCopy d s n m ne = record {
    bytes = λ a. refl;
    tag_outside = λ g al out. ground (arith, out);
    tag_moved = λ g al low high al'. ground (arith, ne, size, low, high);
    tag_lost = λ g al low high al'. ground (arith, ne, size, low, high);
  }

  -- For capabilities of 16 or 32 bytes every variant of memcpy.c refines what memcpy promises: for
  -- any two blocks in the address space that do not overlap, through capabilities that cover them and
  -- maybe no more, it ends, returns the destination (for bcopy, which returns nothing, this is only a
  -- convention of the model), copies the bytes and changes no others; a capability that is aligned
  -- alike in both blocks is moved with its tag, a place that is written otherwise has none, and the
  -- tags outside are as before.
  pub compiled-IsMemcpy :
      (bounds : (dst0 src0 length : ℕ) → Bounds)
      → AllCovered bounds
      → (v : Variant) → IsMemcpy l (compiled bounds v l.psize)
  unfolding compiled
  compiled-IsMemcpy bounds covers v = record {
    ends = λ d s n m apart fd fs. (
      block_copy l.psize d s n m,
      ap (λ r. r >>= λ m'. ok (d, m'))
          (copy_apart v (bounds d s n) l.psize d s n m pointer_size fd fs (covers d s n)
            (omega (arith, apart))),
      block_copy-IsBlockCopy d s n m (omega (arith, apart)),
    );
  }

  -- And the variants that handle overlap are memmoves.
  pub compiled-IsMemmove :
      (bounds : (dst0 src0 length : ℕ) → Bounds)
      → AllCovered bounds
      → (v : Variant) → handle_overlap v ≡ true
      → IsMemmove l (compiled bounds v l.psize)
  unfolding compiled
  compiled-IsMemmove bounds covers v handles = record {
    ends = λ d s n m ne fd fs. (
      block_copy l.psize d s n m,
      ap (λ r. r >>= λ m'. ok (d, m'))
          (copy_overlap v (bounds d s n) l.psize d s n m pointer_size fd fs (covers d s n) handles),
      block_copy-IsBlockCopy d s n m (inl ne),
    );
  }
