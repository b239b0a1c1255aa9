-- ===== src/Ctests/Memcpy/Hybrid/Correct.antt =====
-- The hybrid tests pass with the functions that memcpy.c is compiled to.
use cheritest.Common.{
  ℕ, ◌+◌, ◌-◌, ◌%◌, ◌^◌, ◌≤◌, ◌<◌, ◌≡◌, ◌⊎◌, ◌∙◌, refl, ap, subst, Run, ok, ◌>>=◌, arith,
}
use cheritest.Copy.{Bounds, Variant, add64, sub64, cmemcpy, cmemcpy_c, cmemmove, bcopy}
use cheritest.Ctests.Memory.{Memory, Layout, IsLayout, store_pointer}
use cheritest.Ctests.Memcpy.{y, sizeof_test, invalidate, fill, set_up, call, moved}
use cheritest.Ctests.Memcpy.Laws.{Good, Good-bind}
use cheritest.Ctests.Memcpy.Refine.{AllCovered, compiled, compiled-IsMemcpy}
use cheritest.Ctests.Memcpy.Source.{
  IsSource, fill-IsSource, invalidate-IsSource, set_up-IsSource, store_pointer_other,
  store_pointer_same, store_pointer_tag,
}
use cheritest.Ctests.Memcpy.Copied.{Trial, IsCopy, call-IsStep, moved-IsStep, invalidated-Good}
use cheritest.Ctests.Memcpy.Checks.{four_copies, one_copy_moved, and_then, copy_checked}
use cheritest.Ctests.Memcpy.Correct.{aligned_copies-Good, unaligned_copy-Good, first_half-Good}
use cheritest.Ctests.Memcpy.Hybrid.{
  clang_hybrid_memcpy, clang_hybrid_bcopy, clang_hybrid_memmove, plain_copies, plain_unaligned,
  turn_round,
}

module _ (l : Layout) (il : IsLayout l) (bounds : (dst0 src0 length : ℕ) → Bounds)
    (covers : AllCovered bounds) (t1 t2 : ℕ) (at1 : t1 % l.psize ≡ 0) (at2 : t2 % l.psize ≡ 0)
    (apart : (t1 + (64 + l.psize) ≤ t2) ⊎ (t2 + (64 + l.psize) ≤ t1))
    (in1 : t1 + (64 + l.psize) < 2 ^ 64) (in2 : t2 + (64 + l.psize) < 2 ^ 64) where
  open l use {psize}

  trial : (v : Variant) → Trial l (compiled bounds v psize) t1 t2
  trial v = record {
    il = il;
    im = compiled-IsMemcpy l il.size bounds covers v;
    at1 = at1;
    at2 = at2;
    apart = apart;
    in1 = in1;
    in2 = in2;
  }

  plain_copies-Good :
      (v : Variant) (m : Memory)
      → IsSource l t1 t2 m
      → Good (IsSource l t1 t2) (plain_copies l bounds v t1 t2 m)
  unfolding plain_copies
  plain_copies-Good v =
      four_copies l (compiled bounds v psize) t1 t2 (trial v) (moved l (compiled bounds v psize))
        (moved-IsStep l (compiled bounds v psize) t1 t2 (trial v))

  plain_unaligned-Good :
      (v : Variant) (m : Memory)
      → IsSource l t1 t2 m
      → Good (IsSource l t1 t2) (plain_unaligned l bounds v t1 t2 m)
  unfolding plain_unaligned
  plain_unaligned-Good v =
      one_copy_moved l (compiled bounds v psize) t1 t2 (trial v) (moved l (compiled bounds v psize))
        (moved-IsStep l (compiled bounds v psize) t1 t2 (trial v))

  -- The second structure is then one to copy from.
  turn_round-Good :
      (v : Variant) (m : Memory)
      → IsSource l t1 t2 m
      → Good (IsSource l t2 t1) (turn_round l bounds v t1 t2 m)
  unfolding turn_round
  turn_round-Good v m h =
      Good-bind (IsCopy l (compiled bounds v psize) t1 t2 (trial v) 0 0 (sizeof_test l))
        (IsSource l t2 t1) _ _
        (moved-IsStep l (compiled bounds v psize) t1 t2 (trial v) 0 0 (sizeof_test l) t2 t1
          (omega arith) (omega arith) (omega arith) (omega arith) m h)
        λ m' c. (
          invalidate l t1 (store_pointer l (y l t2) t1 m'),
          refl,
          invalidate-IsSource l t2 t1 at1 (omega (arith, apart)) _ (record {
            at_pad0 = λ i k.
                store_pointer_other l t2 t1 (y l t2) (t2 + i) m' (omega arith)
                ∙ c.copied i (omega arith) (omega arith)
                ∙ ap (λ j. m'.byte (t1 + j)) {x = 0 + (i - 0)} {y = i} (omega arith)
                ∙ c.source.at_pad0 i k;
            at_y = λ i k. store_pointer_same l t2 t1 (y l t2) i m' k;
            at_pad1 = λ i k.
                store_pointer_other l t2 t1 (y l t2) (t2 + 32 + psize + i) m' (omega arith)
                ∙ ap m'.byte {x = t2 + 32 + psize + i} {y = t2 + (32 + psize + i)} (omega arith)
                ∙ c.copied (32 + psize + i) (omega arith) (omega arith)
                ∙ ap m'.byte {x = t1 + (0 + (32 + psize + i - 0))} {y = t1 + 32 + psize + i}
                    (omega arith)
                ∙ c.source.at_pad1 i k;
            tagged = store_pointer_tag l t2 t1 (y l t2) m';
          }),
        )

module _ (l : Layout) (il : IsLayout l) (bounds : (dst0 src0 length : ℕ) → Bounds)
    (covers : AllCovered bounds) (t1 t2 : ℕ) (at1 : t1 % l.psize ≡ 0) (at2 : t2 % l.psize ≡ 0)
    (apart : (t1 + (64 + l.psize) ≤ t2) ⊎ (t2 + (64 + l.psize) ≤ t1))
    (in1 : t1 + (64 + l.psize) < 2 ^ 64) (in2 : t2 + (64 + l.psize) < 2 ^ 64) where
  open l use {psize}

  back : (t2 + (64 + psize) ≤ t1) ⊎ (t1 + (64 + psize) ≤ t2)
  back = omega (arith, apart)

  -- One way, and round.
  first_way-Good :
      (v : Variant) (m : Memory)
      → Good (IsSource l t2 t1) (
          plain_copies l bounds v t1 t2 (fill l t1 t2 (invalidate l t2 m))
          >>= plain_unaligned l bounds v t1 t2
          >>= turn_round l bounds v t1 t2)
  first_way-Good v m =
      Good-bind (IsSource l t1 t2) (IsSource l t2 t1) _ (turn_round l bounds v t1 t2)
        (Good-bind (IsSource l t1 t2) (IsSource l t1 t2) _ (plain_unaligned l bounds v t1 t2)
          (plain_copies-Good l il bounds covers t1 t2 at1 at2 apart in1 in2 v _
            (fill-IsSource l t1 t2 (invalidate l t2 m)))
          (plain_unaligned-Good l il bounds covers t1 t2 at1 at2 apart in1 in2 v))
        (turn_round-Good l il bounds covers t1 t2 at1 at2 apart in1 in2 v)

  both_ways-Good :
      (v : Variant) (m : Memory)
      → Good (IsSource l t2 t1) (
          plain_copies l bounds v t1 t2 (fill l t1 t2 (invalidate l t2 m))
          >>= plain_unaligned l bounds v t1 t2
          >>= turn_round l bounds v t1 t2
          >>= plain_copies l bounds v t2 t1)
  both_ways-Good v m =
      Good-bind (IsSource l t2 t1) (IsSource l t2 t1) _ (plain_copies l bounds v t2 t1)
        (first_way-Good v m) (plain_copies-Good l il bounds covers t2 t1 at2 at1 back in2 in1 v)

  bcopy-Good : (m : Memory) → Good (IsSource l t2 t1) (clang_hybrid_bcopy l bounds t1 t2 m)
  unfolding clang_hybrid_bcopy
  bcopy-Good m =
      Good-bind (IsSource l t2 t1) (IsSource l t2 t1) _ (plain_unaligned l bounds bcopy t2 t1)
        (both_ways-Good bcopy m)
        (plain_unaligned-Good l il bounds covers t2 t1 at2 at1 back in2 in1 bcopy)

  memmove-Good : (m : Memory) → Good (IsSource l t2 t1) (clang_hybrid_memmove l bounds t1 t2 m)
  unfolding clang_hybrid_memmove
  memmove-Good m =
      Good-bind (IsSource l t2 t1) (IsSource l t2 t1) _ (plain_unaligned l bounds cmemmove t2 t1)
        (copy_checked l (compiled bounds cmemmove psize) t2 t1 trial_back 12 (sizeof_test l - 16) 12
          12 _
          (moved-IsStep l (compiled bounds cmemmove psize) t2 t1 trial_back 12 12
            (sizeof_test l - 16) (t1 + 12) (t2 + 12) refl refl (omega (arith, big))
            (omega (arith, big)))
          (omega arith) (omega arith) (omega (arith, big)) (omega arith) _
          (both_ways-Good cmemmove m))
        (plain_unaligned-Good l il bounds covers t2 t1 at2 at1 back in2 in1 cmemmove)
    where
      trial_back : Trial l (compiled bounds cmemmove psize) t2 t1
      trial_back = trial l il bounds covers t2 t1 at2 at1 back in2 in1 cmemmove

      big : 16 ≤ psize
      big = omega (arith, il.size)

  memcpy-Good : (m : Memory) → Good (IsSource l t1 t2) (clang_hybrid_memcpy l bounds t1 t2 m)
  unfolding clang_hybrid_memcpy
  memcpy-Good m =
      copy_checked l f t1 t2 tf 0 (sizeof_test l) 0 32
        (call l f t2 (add64 (sub64 t2 1) 1) (add64 (sub64 t1 1) 1) (sizeof_test l)) from_before
        (omega arith) (omega arith) (omega arith) (omega arith) _
        (and_then l f t1 t2 tf _ (invalidated-Good l f t1 t2 tf) _ (
          and_then l f t1 t2 tf (call l f (t2 + 3) (t2 + 3) (t1 + 3) (sizeof_test l - 6)) unchecked
            _
            (and_then l f t1 t2 tf _ (invalidated-Good l f t1 t2 tf) _ (
              and_then l f t1 t2 tf _ (unaligned_copy-Good l g t1 t2 tg) _ (
                and_then l f t1 t2 tf _ (aligned_copies-Good l g t1 t2 tg) _ (
                  first_half-Good l f t1 t2 tf (set_up l t1 t2 m)
                    (set_up-IsSource l t1 t2 at2 apart m)))))))
    where
      f : (dst src n : ℕ) → Memory → Run (ℕ × Memory)
      f = compiled bounds cmemcpy_c psize

      tf : Trial l f t1 t2
      tf = trial l il bounds covers t1 t2 at1 at2 apart in1 in2 cmemcpy_c

      g : (dst src n : ℕ) → Memory → Run (ℕ × Memory)
      g = compiled bounds cmemcpy psize

      tg : Trial l g t1 t2
      tg = trial l il bounds covers t1 t2 at1 at2 apart in1 in2 cmemcpy

      unchecked :
          (m : Memory)
          → IsSource l t1 t2 m
          → Good (IsSource l t1 t2) (call l f (t2 + 3) (t2 + 3) (t1 + 3) (sizeof_test l - 6) m)
      unchecked m h =
          let (m', e, c) =
            call-IsStep l f t1 t2 tf 3 3 (sizeof_test l - 6) (t2 + 3) (t1 + 3) refl refl
              (omega arith) (omega arith) m h in
          (m', e, c.source)

      from_before :
          (m : Memory)
          → IsSource l t1 t2 m
          → Good
              (IsCopy l f t1 t2 tf 0 0 (sizeof_test l))
              (call l f t2 (add64 (sub64 t2 1) 1) (add64 (sub64 t1 1) 1) (sizeof_test l) m)
      from_before m h =
          subst
            (λ d.
              Good (IsCopy l f t1 t2 tf 0 0 (sizeof_test l))
                (call l f t2 d (add64 (sub64 t1 1) 1) (sizeof_test l) m))
            {x = t2} {y = add64 (sub64 t2 1) 1} (omega arith)
            (call-IsStep l f t1 t2 tf 0 0 (sizeof_test l) t2 (add64 (sub64 t1 1) 1) (omega arith)
              (omega arith) (omega arith) (omega arith) m h)

  -- Where capabilities have 16 or 32 bytes and addresses of 64 bits come back from memory as they were
  -- stored, the two structures are aligned, in the address space and do not overlap, and memcpy.c
  -- copies through capabilities that cover the blocks of a call: the three tests, each with the
  -- functions that memcpy.c is compiled to for it, end, no assertion of them fails and no access
  -- traps.
  pub hybrid-passes :
      (m : Memory)
      → ((m' : Memory) × (clang_hybrid_memcpy l bounds t1 t2 m ≡ ok m'))
        × ((m' : Memory) × (clang_hybrid_memmove l bounds t1 t2 m ≡ ok m'))
        × ((m' : Memory) × (clang_hybrid_bcopy l bounds t1 t2 m ≡ ok m'))
  hybrid-passes m =
      let (m1, e1, _) = memcpy-Good m in
      let (m2, e2, _) = memmove-Good m in
      let (m3, e3, _) = bcopy-Good m in ((m1, e1), (m2, e2), (m3, e3))
