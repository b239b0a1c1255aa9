-- ===== src/Ctests/Memcpy/Source.antt =====
-- libc_memcpy.c: the first structure as the test sets it up, which every copy reads.
use cheritest.Common.{
  ℕ, ◌+◌, ◌-◌, ◌%◌, ◌≤◌, ◌<◌, ◌≡◌, ◌⊎◌, ◌∙◌, ap, true, ◌&&◌, if◌then◌else◌, ltb, leb, arith,
}
use cheritest.Ctests.Memory.{Memory, Layout, store_pointer, place_of}
use cheritest.Ctests.Memcpy.{y, invalidate, fill_pads, fill, set_up}
use cheritest.Ctests.Memcpy.Frame.{invalidate_byte, invalidate_tag, fill_pad0, fill_pad1}

module _ (l : Layout) (t1 t2 : ℕ) where
  open l use {psize}

  -- The first structure as the test sets it up.
  pub record IsSource (m : Memory) : Type 0 where
    pub at_pad0 : (i : ℕ) → i < 32 → m.byte (t1 + i) ≡ i
    pub at_y : (i : ℕ) → i < psize → m.byte (t1 + 32 + i) ≡ l.encode t2 i
    pub at_pad1 : (i : ℕ) → i < 32 → m.byte (t1 + 32 + psize + i) ≡ i
    pub tagged : m.tag (t1 + 32) ≡ true

  -- Only bytes and places outside of the first structure have changed.
  pub IsSource-stays :
      (m m' : Memory)
      → ((b : ℕ) → t1 ≤ b → b < t1 + (64 + psize) → m'.byte b ≡ m.byte b)
      → m'.tag (t1 + 32) ≡ m.tag (t1 + 32)
      → IsSource m
      → IsSource m'
  IsSource-stays m m' same tag h = record {
    at_pad0 = λ i k. same (t1 + i) (omega arith) (omega arith) ∙ h.at_pad0 i k;
    at_y = λ i k. same (t1 + 32 + i) (omega arith) (omega arith) ∙ h.at_y i k;
    at_pad1 = λ i k. same (t1 + 32 + psize + i) (omega arith) (omega arith) ∙ h.at_pad1 i k;
    tagged = tag ∙ h.tagged;
  }

  pub store_pointer_other :
      (a b : ℕ) (m : Memory)
      → (b < a) ⊎ (a + psize ≤ b)
      → (store_pointer l a t2 m).byte b ≡ m.byte b
  unfolding store_pointer
  store_pointer_other a b m h = ground (arith, h)

  pub store_pointer_same :
      (a i : ℕ) (m : Memory) → i < psize → (store_pointer l a t2 m).byte (a + i) ≡ l.encode t2 i
  unfolding store_pointer
  store_pointer_same a i m h =
      ap (λ t. if t then l.encode t2 (a + i - a) else m.byte (a + i))
        {x = leb a (a + i) && ltb (a + i) (a + psize)} {y = true} (ground arith)
      ∙ ap (l.encode t2) {x = a + i - a} {y = i} (omega arith)

  pub store_pointer_tag : (a : ℕ) (m : Memory) → (store_pointer l a t2 m).tag a ≡ true
  unfolding store_pointer
  store_pointer_tag a m = ground arith

  pub fill-IsSource : (m : Memory) → IsSource (fill l t1 t2 m)
  unfolding fill
  fill-IsSource m = record {
    at_pad0 = λ i k.
        store_pointer_other (y l t1) (t1 + i) (fill_pads l 32 0 t1 m) (omega arith)
        ∙ fill_pad0 l t1 32 0 i m (omega arith) (omega arith) (omega arith);
    at_y = λ i k. store_pointer_same (y l t1) i (fill_pads l 32 0 t1 m) k;
    at_pad1 = λ i k.
        store_pointer_other (y l t1) (t1 + 32 + psize + i) (fill_pads l 32 0 t1 m) (omega arith)
        ∙ fill_pad1 l t1 32 0 i m (omega arith) (omega arith) (omega arith);
    tagged = store_pointer_tag (y l t1) (fill_pads l 32 0 t1 m);
  }

  module _ (at2 : t2 % psize ≡ 0)
      (apart : (t1 + (64 + psize) ≤ t2) ⊎ (t2 + (64 + psize) ≤ t1)) where
    pub place_t2 : place_of l t2 ≡ t2
    place_t2 = omega (arith, at2)

    pub invalidate-IsSource : (m : Memory) → IsSource m → IsSource (invalidate l t2 m)
    invalidate-IsSource m =
        IsSource-stays m (invalidate l t2 m)
          (λ b c d. invalidate_byte l t2 b m (omega (arith, apart)))
          (invalidate_tag l t2 (t1 + 32) m (omega (arith, apart, place_t2)))

    pub set_up-IsSource : (m : Memory) → IsSource (set_up l t1 t2 m)
    unfolding set_up fill
    set_up-IsSource m =
        invalidate-IsSource (fill l t1 t2 (invalidate l t2 m)) (fill-IsSource (invalidate l t2 m))
