-- ===== src/Ctests/Memcpy/Hybrid.antt =====
-- cheri-c-tests/clang-hybrid: clang_hybrid_memcpy.c, clang_hybrid_memmove.c and clang_hybrid_bcopy.c,
-- which include memcpy.c. Their structure, `check` and `invalidate` are those of libc_memcpy.c.
pub mod Correct
use cheritest.Common.{ℕ, ◌+◌, ◌-◌, Run, ok, ◌>>=◌}
use cheritest.Copy.{Bounds, Variant, add64, sub64, cmemcpy, cmemcpy_c, cmemmove, bcopy}
use cheritest.Ctests.Memory.{Memory, Layout, store_pointer, load_pointer}
use cheritest.Ctests.Memcpy.{
  y, sizeof_test, invalidate, fill, set_up, checked, checked_moved, invalidated, call, moved,
  aligned_copies, unaligned_copy,
}
use cheritest.Ctests.Memcpy.Refine.{compiled}

module _ (l : Layout) (bounds : (dst0 src0 length : ℕ) → Bounds) where
  open l use {psize}

  -- The test's own pointers are addresses: incrementing the offset of a capability for the byte before
  -- a structure gives one for the structure.
  unfoldable pub clang_hybrid_memcpy : (t1 t2 : ℕ) → Memory → Run Memory
  unfolding set_up call checked aligned_copies unaligned_copy
  clang_hybrid_memcpy t1 t2 m =
      let m0 = set_up l t1 t2 m in
      aligned_copies l (compiled bounds cmemcpy_c psize) (load_pointer l (y l t1) m0) t1 t2 m0
      >>= unaligned_copy l (compiled bounds cmemcpy_c psize) t1 t2
      >>= invalidated l t2
      >>= aligned_copies l (compiled bounds cmemcpy psize) t2 t1 t2
      >>= unaligned_copy l (compiled bounds cmemcpy psize) t1 t2
      >>= invalidated l t2
      >>= call l (compiled bounds cmemcpy_c psize) (t2 + 3) (t2 + 3) (t1 + 3) (sizeof_test l - 6)
      >>= invalidated l t2
      >>= call l (compiled bounds cmemcpy_c psize) t2 (add64 (sub64 t2 1) 1) (add64 (sub64 t1 1) 1)
          (sizeof_test l)
      >>= checked l t2 0 32

  -- The other two tests use no result. From the first structure to the second:
  unfoldable pub plain_copies : (v : Variant) (t1 t2 : ℕ) → Memory → Run Memory
  unfolding moved checked
  plain_copies v t1 t2 m =
      moved l (compiled bounds v psize) t2 t1 (sizeof_test l) m
      >>= checked l t2 0 32
      >>= invalidated l t2
      >>= moved l (compiled bounds v psize) (t2 + 3) (t1 + 3) (sizeof_test l - 3)
      >>= checked l t2 3 32
      >>= moved l (compiled bounds v psize) t2 t1 (sizeof_test l - 3)
      >>= checked l t2 0 29
      >>= moved l (compiled bounds v psize) (t2 + 3) (t1 + 3) (sizeof_test l - 6)
      >>= checked l t2 3 29
      >>= invalidated l t2

  unfoldable pub plain_unaligned : (v : Variant) (t1 t2 : ℕ) → Memory → Run Memory
  unfolding moved checked_moved
  plain_unaligned v t1 t2 m =
      moved l (compiled bounds v psize) t2 (t1 + 1) (sizeof_test l - 1) m >>= checked_moved l t2

  -- The second structure becomes the one to copy from.
  unfoldable pub turn_round : (v : Variant) (t1 t2 : ℕ) → Memory → Run Memory
  unfolding moved invalidate
  turn_round v t1 t2 m = moved l (compiled bounds v psize) t2 t1 (sizeof_test l) m >>= λ m'.
      ok (invalidate l t1 (store_pointer l (y l t2) t1 m'))

  unfoldable pub clang_hybrid_bcopy : (t1 t2 : ℕ) → Memory → Run Memory
  unfolding invalidate fill plain_copies plain_unaligned turn_round
  clang_hybrid_bcopy t1 t2 m =
      plain_copies bcopy t1 t2 (fill l t1 t2 (invalidate l t2 m))
      >>= plain_unaligned bcopy t1 t2
      >>= turn_round bcopy t1 t2
      >>= plain_copies bcopy t2 t1
      >>= plain_unaligned bcopy t2 t1

  unfoldable pub clang_hybrid_memmove : (t1 t2 : ℕ) → Memory → Run Memory
  unfolding invalidate fill checked moved plain_copies plain_unaligned turn_round
  clang_hybrid_memmove t1 t2 m =
      plain_copies cmemmove t1 t2 (fill l t1 t2 (invalidate l t2 m))
      >>= plain_unaligned cmemmove t1 t2
      >>= turn_round cmemmove t1 t2
      >>= plain_copies cmemmove t2 t1
      >>= moved l (compiled bounds cmemmove psize) (t1 + 12) (t2 + 12) (sizeof_test l - 16)
      >>= checked l t1 12 12
      >>= plain_unaligned cmemmove t2 t1
