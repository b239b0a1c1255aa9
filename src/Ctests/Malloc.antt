-- ===== src/Ctests/Malloc.antt =====
-- cheri-c-tests/libc/libc_malloc.c: the test of malloc, calloc and free, which are a parameter.
pub mod Calloc
use cheritest.Common.{
  ℕ, zero, suc, ◌+◌, ◌-◌, ◌%◌, ◌^◌, ◌≤◌, ◌<◌, ◌≡◌, Bool, true, false, ◌&&◌, ◌==◌, leb, ltb,
  if◌then◌else◌, bit_and, Run, ok, fault, ◌>>=◌, List, [], ◌∷◌,
}

pub record Capability : Type 0 where
  pub tag : Bool
  pub base : ℕ
  pub length : ℕ
  pub offset : ℕ
  pub perms : ℕ

-- The library. `byte` is what a pointer's index reads.
pub record Allocator : Type 1 where
  pub Heap : Type 0
  pub malloc : (size : ℕ) → Heap → Capability × Heap
  pub calloc : (number size : ℕ) → Heap → Capability × Heap
  pub free : Capability → Heap → Heap
  pub byte : Heap → Capability → ℕ → ℕ
  pub malloc_usable_size : Heap → Capability → ℕ

-- The machine's masks of permissions and size of a pointer, and the macros that are defined.
pub record Setting : Type 0 where
  pub execute : ℕ
  pub store_capability : ℕ
  pub store : ℕ
  pub load_capability : ℕ
  pub load : ℕ
  pub sizeof_pointer : ℕ
  pub include_xfail : Bool
  pub have_malloc_usable_size : Bool
  pub slow_tests : Bool

abbrev pub has_permission : Capability → ℕ → Bool
has_permission c perm = bit_and c.perms perm == perm

abbrev pub has_not_permission : Capability → ℕ → Bool
has_not_permission c perm = bit_and c.perms perm == 0

module _ (a : Allocator) (s : Setting) where
  open a use {Heap, malloc, calloc, free, byte, malloc_usable_size}

  unfoldable pub check_allocation : Heap → Capability → (size : ℕ) → Bool
  check_allocation h c size =
      c.tag
      && (leb size ((c.length + 2 ^ 64 - c.offset) % 2 ^ 64)
          && ((if s.include_xfail then has_not_permission c s.execute else true)
              && (has_permission c s.store_capability
                  && (has_permission c s.store
                      && (has_permission c s.load_capability
                          && (has_permission c s.load
                              && (c.offset == 0
                                  && (leb size c.length
                                      && ((if s.have_malloc_usable_size
                                            then c.length == malloc_usable_size h c
                                            else true)
                                          && (if leb s.sizeof_pointer size
                                              then bit_and c.base (s.sizeof_pointer - 1) == 0
                                              else true))))))))))

  -- Reading outside of the bounds traps.
  unfoldable pub read : Heap → Capability → ℕ → Run ℕ
  read h c i = if c.tag && ltb (c.offset + i) c.length then ok (byte h c i) else fault

  -- The loop, for `count` more bytes from `i` on.
  unfoldable pub check_zeros : (count i : ℕ) → Heap → Capability → Run Heap
  unfolding read
  check_zeros zero i h b = ok h
  check_zeros (suc count) i h b =
      read h b i >>= λ v. let rest = check_zeros count (i + 1) h b in if v == 0 then rest else fault

  unfoldable pub check_size : (size : ℕ) → Heap → Run Heap
  unfolding check_allocation check_zeros
  check_size size h =
      let (p, h1) = malloc size h in
      let (b, h2) = calloc size 1 h1 in
      if check_allocation h1 p size
      then (if check_allocation h2 b size
          then (check_zeros (size - 1) 0 h2 b >>= λ h3. ok (free b (free p h3)))
          else fault)
      else fault

  -- The loop, for `count` more numbers from `i` on.
  unfoldable pub check_sizes : (count i : ℕ) → Heap → Run Heap
  unfolding check_size
  check_sizes zero i h = ok h
  check_sizes (suc count) i h =
      check_size (2 ^ i) h >>= check_size (2 ^ i + 1) >>= check_sizes count (i + 1)

  abbrev pub max : ℕ
  max = if s.slow_tests then 27 else 20

  unfoldable pub libc_malloc : Heap → Run Heap
  unfolding check_sizes
  libc_malloc h = check_sizes max 1 h
