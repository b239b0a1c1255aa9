-- ===== src/Ctests/Memcpy.antt =====
-- cheri-c-tests/libc/libc_memcpy.c: the test of memcpy. The memcpy under test is a parameter, whose
-- run may trap.
pub mod Checks
pub mod Copied
pub mod Correct
pub mod Frame
pub mod Hybrid
pub mod Laws
pub mod Refine
pub mod Source
use cheritest.Common.{
  ℕ, zero, suc, ◌+◌, ◌-◌, Bool, true, false, not, ◌&&◌, ◌==◌, if◌then◌else◌, Run, ok, fault, ◌>>=◌,
}
use cheritest.Ctests.Memory.{Memory, Layout, store_byte, store_pointer, load_pointer}

-- A loop that asserts `f` for `count` numbers from `i` on.
unfoldable pub for_all : (count i : ℕ) → (ℕ → Bool) → Bool
for_all zero i f = true
for_all (suc count) i f = f i && for_all count (i + 1) f

module _ (l : Layout) where
  open l use {psize}

  -- struct Test: 32 bytes, a pointer, 32 bytes.
  abbrev pub pad0 : ℕ → ℕ
  pad0 t = t

  abbrev pub y : ℕ → ℕ
  y t = t + 32

  abbrev pub pad1 : ℕ → ℕ
  pad1 t = t + 32 + psize

  abbrev pub sizeof_test : ℕ
  sizeof_test = 64 + psize

  unfoldable pub check : (t start end : ℕ) → Memory → Bool
  unfolding for_all
  check t start end m =
      for_all (32 - start) start (λ i. m.byte (pad0 t + i) == i)
      && (load_pointer l (y t) m == t
          && (m.tag (y t) && for_all end 0 (λ i. m.byte (pad1 t + i) == i)))

  -- The loop stores to `*x` each time, and `x` stays where it is.
  unfoldable pub invalidate_loop : (count x : ℕ) → Memory → Memory
  invalidate_loop zero x m = m
  invalidate_loop (suc count) x m = invalidate_loop count x (store_byte l x 0xa5 m)

  unfoldable pub invalidate : (t : ℕ) → Memory → Memory
  unfolding invalidate_loop
  invalidate t m = invalidate_loop sizeof_test t m

  unfoldable pub fill_pads : (count i t : ℕ) → Memory → Memory
  fill_pads zero i t m = m
  fill_pads (suc count) i t m =
      fill_pads count (i + 1) t (store_byte l (pad1 t + i) i (store_byte l (pad0 t + i) i m))

  -- The first structure, with its pointer to the second.
  unfoldable pub fill : (t1 t2 : ℕ) → Memory → Memory
  unfolding fill_pads
  fill t1 t2 m = store_pointer l (y t1) t2 (fill_pads 32 0 t1 m)

  -- Before the first copy.
  unfoldable pub set_up : (t1 t2 : ℕ) → Memory → Memory
  unfolding invalidate fill_pads
  set_up t1 t2 m = invalidate t2 (store_pointer l (y t1) t2 (fill_pads 32 0 t1 (invalidate t2 m)))

  unfoldable pub checked : (t start end : ℕ) → Memory → Run Memory
  unfolding check
  checked t start end m = if check t start end m then ok m else fault

  abbrev pub invalidated : (t : ℕ) → Memory → Run Memory
  invalidated t m = ok (invalidate t m)

  -- The assertions after the copy that moves everything down by one byte.
  unfoldable pub check_moved : (t : ℕ) → Memory → Bool
  unfolding for_all
  check_moved t m =
      not (m.tag (y t))
      && for_all 31 0 (λ i. m.byte (pad0 t + i) == i + 1 && m.byte (pad1 t + i) == i + 1)

  unfoldable pub checked_moved : (t : ℕ) → Memory → Run Memory
  unfolding check_moved
  checked_moved t m = if check_moved t m then ok m else fault

  -- The function under test returns a pointer and leaves the memory.
  module _ (memcpy : (dst src n : ℕ) → Memory → Run (ℕ × Memory)) where
    -- A call, and the assertion on its result.
    unfoldable pub call : (expected dst src n : ℕ) → Memory → Run Memory
    call expected dst src n m =
        memcpy dst src n m >>= λ (cpy, m'). if cpy == expected then ok m' else fault

    -- A call whose result is not used.
    unfoldable pub moved : (dst src n : ℕ) → Memory → Run Memory
    moved dst src n m = memcpy dst src n m >>= λ (cpy, m'). ok m'

    -- The copies with the pointer aligned alike on both sides, the first one to `dst`.
    unfoldable pub aligned_copies : (dst t1 t2 : ℕ) → Memory → Run Memory
    unfolding call checked
    aligned_copies dst t1 t2 m =
        call t2 dst t1 sizeof_test m
        >>= checked t2 0 32
        >>= invalidated t2
        >>= call (t2 + 3) (t2 + 3) (t1 + 3) (sizeof_test - 3)
        >>= checked t2 3 32
        >>= call t2 t2 t1 (sizeof_test - 3)
        >>= checked t2 0 29
        >>= call (t2 + 3) (t2 + 3) (t1 + 3) (sizeof_test - 6)
        >>= checked t2 3 29
        >>= invalidated t2

    unfoldable pub unaligned_copy : (t1 t2 : ℕ) → Memory → Run Memory
    unfolding call checked_moved
    unaligned_copy t1 t2 m = call t2 t2 (t1 + 1) (sizeof_test - 1) m >>= checked_moved t2

    unfoldable pub libc_memcpy : (t1 t2 : ℕ) → Memory → Run Memory
    unfolding set_up call checked aligned_copies unaligned_copy
    libc_memcpy t1 t2 m =
        let m0 = set_up t1 t2 m in
        aligned_copies (load_pointer l (y t1) m0) t1 t2 m0
        >>= unaligned_copy t1 t2
        >>= invalidated t2
        >>= aligned_copies t2 t1 t2
        >>= unaligned_copy t1 t2
        >>= invalidated t2
        >>= call (t2 + 3) (t2 + 3) (t1 + 3) (sizeof_test - 6)
        >>= checked t2 3 29
