-- ===== src/Ctests/Memmove.antt =====
-- cheri-c-tests/libc/libc_memmove.c: the test of memmove, which moves pointers down within an array.
-- The memmove under test is a parameter.
use cheritest.Common.{
  ℕ, zero, suc, ◌+◌, ◌-◌, ◌*◌, ◌%◌, ◌^◌, ◌≤◌, ◌<◌, ◌≡◌, ◌⊎◌, ◌∙◌, refl, ap, true, false, ◌&&◌, ◌==◌,
  ltb, leb, if◌then◌else◌, Run, ok, fault, ◌>>=◌, arith,
}
use native.Mathlib.Nat.{mul-le-mul_right, add-mul-mod_self_right}
use cheritest.Ctests.Memcpy.Laws.{IsBlockCopy, IsMemmove}
use cheritest.Ctests.Memory.{Memory, Layout, IsLayout, load_pointer}

module _ (l : Layout) where
  open l use {psize}

  -- The address of `buffer[i]`.
  abbrev pub entry : (buffer i : ℕ) → ℕ
  entry buffer i = buffer + i * psize

  -- `*buffer[i]`; a pointer without its tag cannot be used.
  unfoldable pub follow_entry : (buffer i : ℕ) → Memory → Run ℕ
  follow_entry buffer i m =
      if m.tag (entry buffer i) then ok (m.byte (load_pointer l (entry buffer i) m)) else fault

  -- The loop, for `count` more indices from `i` on.
  unfoldable pub check_entries : (buffer count i : ℕ) → Memory → Run Memory
  unfolding follow_entry
  check_entries buffer zero i m = ok m
  check_entries buffer (suc count) i m = follow_entry buffer i m >>= λ c.
      let rest = check_entries buffer count (i + 1) m in if c == 0x30 + i + 2 then rest else fault

  -- An array of ten pointers.
  abbrev pub sizeof_buffer : ℕ
  sizeof_buffer = 10 * psize

  module _ (memmove : (dst src n : ℕ) → Memory → Run (ℕ × Memory)) where
    unfoldable pub libc_memmove : (buffer : ℕ) → Memory → Run Memory
    unfolding check_entries
    libc_memmove buffer m =
        memmove buffer (entry buffer 2) (sizeof_buffer - 2 * psize) m >>= λ (result, m').
        check_entries buffer 8 0 m'

  -- How the program starts: the entries point to the ten digits.
  pub record IsStart (pointees buffer : ℕ) (m : Memory) : Type 0 where
    pub digits : (i : ℕ) → i < 10 → m.byte (pointees + i) ≡ 0x30 + i
    pub pointers :
        (i : ℕ)
        → i < 10
        → (j : ℕ) → j < psize
        → m.byte (entry buffer i + j) ≡ l.encode (pointees + i) j
    pub tags : (i : ℕ) → i < 10 → m.tag (entry buffer i) ≡ true

module _ (l : Layout) (il : IsLayout l) (memmove : (dst src n : ℕ) → Memory → Run (ℕ × Memory))
    (im : IsMemmove l memmove) (pointees buffer : ℕ) (aligned : buffer % l.psize ≡ 0)
    (in_space : pointees + 10 ≤ 2 ^ 64) (below : buffer + 10 * l.psize < 2 ^ 64)
    (apart : (pointees + 10 ≤ buffer) ⊎ (buffer + 10 * l.psize ≤ pointees)) (m : Memory)
    (start : IsStart l pointees buffer m) where
  open l use {psize}

  run :
      (m' : Memory) × (memmove buffer (entry l buffer 2) (sizeof_buffer l - 2 * psize) m
        ≡ ok (buffer, m'))
      × IsBlockCopy l buffer (entry l buffer 2) (sizeof_buffer l - 2 * psize) m m'
  run =
      im.ends buffer (entry l buffer 2) (sizeof_buffer l - 2 * psize) m (omega (arith, il.size))
        (omega (arith, below)) (omega (arith, below))

  abbrev moved : Memory
  moved = run.0

  promise : IsBlockCopy l buffer (entry l buffer 2) (sizeof_buffer l - 2 * psize) m moved
  promise = run.2

  entry_bounds : (i : ℕ) → i < 8 → i * psize + psize ≤ 8 * psize
  entry_bounds i h =
      omega (arith, mul-le-mul_right {m = i + 1} {n = 8} psize (omega arith), one_more)
    where
      one_more : (i + 1) * psize ≡ i * psize + psize
      one_more = grind arith

  entry_aligned : (i : ℕ) → entry l buffer i % psize ≡ 0
  entry_aligned i = add-mul-mod_self_right buffer i psize ∙ aligned

  entry_two : (i : ℕ) → entry l buffer 2 + (entry l buffer i - buffer) ≡ entry l buffer (i + 2)
  entry_two i = grind arith

  moved_byte :
      (i j : ℕ)
      → i < 8
      → j < psize
      → moved.byte (entry l buffer i + j) ≡ m.byte (entry l buffer (i + 2) + j)
  moved_byte i j h k =
      promise.bytes (entry l buffer i + j)
      ∙ ap
          (λ t.
            if t
            then m.byte (entry l buffer 2 + (entry l buffer i + j - buffer))
            else m.byte (entry l buffer i + j))
          {x = leb buffer (entry l buffer i + j)
            && ltb (entry l buffer i + j) (buffer + (sizeof_buffer l - 2 * psize))}
          {y = true} (ground (arith, entry_bounds i h))
      ∙ ap m.byte (omega (arith, entry_two i))

  moved_tag : (i : ℕ) → i < 8 → moved.tag (entry l buffer i) ≡ true
  moved_tag i h =
      promise.tag_moved (entry l buffer i) (entry_aligned i) (omega arith)
        (omega (arith, entry_bounds i h))
        (ap (λ a. a % psize) (entry_two i) ∙ entry_aligned (i + 2))
      ∙ ap m.tag (entry_two i)
      ∙ start.tags (i + 2) (omega arith)

  moved_pointer : (i : ℕ) → i < 8 → load_pointer l (entry l buffer i) moved ≡ pointees + (i + 2)
  unfolding load_pointer
  moved_pointer i h =
      il.decode-encode _ (pointees + (i + 2)) (omega (arith, in_space))
        λ j k. moved_byte i j h k ∙ start.pointers (i + 2) (omega arith) j k

  moved_digit : (i : ℕ) → i < 8 → moved.byte (pointees + (i + 2)) ≡ 0x30 + i + 2
  moved_digit i h =
      promise.bytes (pointees + (i + 2))
      ∙ ap
          (λ t.
            if t
            then m.byte (entry l buffer 2 + (pointees + (i + 2) - buffer))
            else m.byte (pointees + (i + 2)))
          {x = leb buffer (pointees + (i + 2))
            && ltb (pointees + (i + 2)) (buffer + (sizeof_buffer l - 2 * psize))}
          {y = false} (ground (arith, apart))
      ∙ start.digits (i + 2) (omega arith)
      ∙ omega arith

  follow_moved : (i : ℕ) → i < 8 → follow_entry l buffer i moved ≡ ok (0x30 + i + 2)
  unfolding follow_entry
  follow_moved i h =
      ap (λ t. if t then ok (moved.byte (load_pointer l (entry l buffer i) moved)) else fault)
        (moved_tag i h)
      ∙ ap (λ a. ok (moved.byte a)) (moved_pointer i h)
      ∙ ap ok (moved_digit i h)

  check_entries-moved :
      (count i : ℕ) → i + count ≤ 8 → check_entries l buffer count i moved ≡ ok moved
  unfolding check_entries
  check_entries-moved zero i h = refl
  check_entries-moved (suc count) i h =
      ap
        (λ r. r >>= λ c.
          if c == 0x30 + i + 2 then check_entries l buffer count (i + 1) moved else fault)
        (follow_moved i (omega arith))
      ∙ ap (λ t. if t then check_entries l buffer count (i + 1) moved else fault)
          {x = 0x30 + i + 2 == 0x30 + i + 2} {y = true} (ground arith)
      ∙ check_entries-moved count (i + 1) (omega arith)

  -- Where capabilities have 16 or 32 bytes and addresses of 64 bits come back from memory as they
  -- were stored, and the array is aligned, in the address space and apart from the digits: with a memmove
  -- that keeps its promise, also for these two blocks that overlap, no assertion of the test fails and
  -- every pointer that it follows has its tag.
  pub libc_memmove-passes : (m' : Memory) × (libc_memmove l memmove buffer m ≡ ok m')
  unfolding libc_memmove
  libc_memmove-passes = (
    moved,
    ap (λ r. r >>= λ (result, m'). check_entries l buffer 8 0 m') run.1
        ∙ check_entries-moved 8 0 (omega arith),
  )
