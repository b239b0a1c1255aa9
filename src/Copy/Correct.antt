-- ===== src/Copy/Correct.antt =====
-- memcpy.c: what the eight functions leave in memory.
use cheritest.Common.{
  ok, ℕ, ◌+◌, ◌-◌, ◌%◌, ◌≤◌, ◌<◌, ◌≡◌, ◌⊎◌, inl, inr, ap, true, false, not, ◌||◌, ◌==◌, ltb, leb,
  ◌&&◌, if◌then◌else◌, arith, Bool-cases,
}
use cheritest.Ctests.Memory.{Memory}
use cheritest.Copy.{bigptr, word_mod, Bounds, Variant, handle_overlap, Cursor, copy}
use cheritest.Copy.Copied.{copied, Memory-path}
use cheritest.Copy.Loops.{Covers, up_to}
use cheritest.Copy.Masks.{IsPointerSize}
use cheritest.Copy.Forward.{copy_forward-copied}
use cheritest.Copy.Backward.{copy_backward-copied}

-- The specification, all at once: the destination block receives the bytes that the source block
-- held before, and every other byte keeps its value. Of the places for capabilities that the
-- destination touches, those inside take their tags along if they are aligned alike in both blocks,
-- and the others lose them. A block that is copied onto itself stays as it is.
abbrev pub block_copy : (psize dst src length : ℕ) → Memory → Memory
block_copy psize dst src length m = record {
  byte = λ a. if leb dst a && ltb a (dst + length) then m.byte (src + (a - dst)) else m.byte a;
  tag = λ g.
      if bigptr psize
        && g % psize == 0
        && ltb 0 length
        && ltb dst (g + psize)
        && ltb g (dst + length)
        && not (src == dst)
      then (if leb dst g && leb (g + psize) (dst + length) && (src + (g - dst)) % psize == 0
          then m.tag (src + (g - dst))
          else false)
      else m.tag g;
}

-- The narrowest bounds that cover the blocks.
abbrev pub block_bounds : (dst src length : ℕ) → Bounds
block_bounds dst src length = record {
  dst_base = dst;
  dst_top = dst + length;
  src_base = src;
  src_top = src + length;
}

copied-block_copy :
    (p : ℕ) (m : Memory) (d s n : ℕ) → (s == d) ≡ false → copied p m d s 0 n ≡ block_copy p d s n m
copied-block_copy p m d s n ne = Memory-path _ _ (λ a. ground arith) (λ g. ground (arith, ne))

unmoved : (p : ℕ) (m : Memory) (d s n : ℕ) → (n == 0 || s == d) ≡ true → m ≡ block_copy p d s n m
unmoved p m d s n h = Memory-path _ _ (λ a. ground arith) (λ g. ground (arith, h))

module _ (v : Variant) (caps : Bounds) (p d s n : ℕ) (m : Memory) (size : IsPointerSize p)
    (fd : d + n < word_mod) (fs : s + n < word_mod) (within : Covers caps d s n) where
  nothing_to_do : (n == 0 || s == d) ≡ true → copy v caps p d s n m ≡ ok (block_copy p d s n m)
  unfolding copy
  nothing_to_do none_left = rw none_left (ap ok (unmoved p m d s n none_left))

  goes_forward :
      (n == 0 || s == d) ≡ false
      → (ltb d s || not (handle_overlap v)) ≡ true
      → (d < s) ⊎ (s + n ≤ d)
      → copy v caps p d s n m ≡ ok (block_copy p d s n m)
  unfolding copy
  goes_forward some_left up apart =
      let (l, runs) = copy_forward-copied caps p size m d s n fd fs within apart (ground arith) in
      rw (some_left, up, at_start, runs) (ap ok (copied-block_copy p m d s n (ground arith)))
    where
      at_start :
          ◌≡◌ {A = Cursor} (record { dst = d; src = s; length = n; mem = m }) (up_to p m d s 0 n)
      at_start = ground arith

  goes_backward :
      (n == 0 || s == d) ≡ false
      → (ltb d s || not (handle_overlap v)) ≡ false
      → copy v caps p d s n m ≡ ok (block_copy p d s n m)
  unfolding copy
  goes_backward some_left down =
      let (l, runs) =
        copy_backward-copied caps p size m d s n fd fs within (ground arith) (ground arith) in
      rw (some_left, down, runs) (ap ok (copied-block_copy p m d s n (ground arith)))

  -- The variants that handle overlap (memmove, cmemmove, memmove_c, bcopy), for any two blocks that
  -- do not reach the end of the address space, at each size of a pointer, where the bounds of the two
  -- capabilities cover the blocks: the copy ends, no access of it is misaligned or out of bounds, not
  -- even if they cover nothing else, the destination receives the source's old bytes, also where the
  -- blocks overlap, and every other byte keeps its value. Capabilities inside the destination keep
  -- their tags if they are aligned alike in both blocks; places that are overwritten otherwise lose
  -- them.
  pub copy_overlap : handle_overlap v ≡ true → copy v caps p d s n m ≡ ok (block_copy p d s n m)
  copy_overlap handles = elim (Bool-cases (n == 0 || s == d)) [
    | inl none_left ↦ nothing_to_do none_left
    | inr some_left ↦ elim (Bool-cases (ltb d s || not (handle_overlap v))) [
      | inl up ↦ goes_forward some_left up (ground arith)
      | inr down ↦ goes_backward some_left down
    ]
  ]

  -- Every variant, memcpy and its kin included, if the destination starts below the source or the
  -- blocks are disjoint.
  pub copy_apart :
      (d < s) ⊎ ((s + n ≤ d) ⊎ (d + n ≤ s)) → copy v caps p d s n m ≡ ok (block_copy p d s n m)
  copy_apart apart = elim (Bool-cases (n == 0 || s == d)) [
    | inl none_left ↦ nothing_to_do none_left
    | inr some_left ↦ elim (Bool-cases (ltb d s || not (handle_overlap v))) [
      | inl up ↦ goes_forward some_left up (ground arith)
      | inr down ↦ goes_backward some_left down
    ]
  ]
