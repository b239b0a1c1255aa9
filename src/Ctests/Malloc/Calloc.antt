-- ===== src/Ctests/Malloc/Calloc.antt =====
-- libc_malloc.c: what the test can find out about the memory that calloc returns.
use cheritest.Common.{
  ℕ, zero, suc, ◌+◌, ◌-◌, ◌^◌, ◌<◌, ◌≡◌, refl, ap, ◌∙◌, if◌then◌else◌, Run, ok, fault, hung, ◌>>=◌,
  arith,
}
use cheritest.Common.Fields.{two_pow_pos}
use cheritest.Ctests.Malloc.{
  Capability, Allocator, Setting, check_allocation, read, check_zeros, check_size, check_sizes,
  libc_malloc,
}

-- In a block that calloc has just returned, other contents differ at most in its last byte.
abbrev pub AgreesButLast : (a : Allocator) → (a.Heap → Capability → ℕ → ℕ) → Type 0
AgreesButLast a byte' =
    (n : ℕ) (h : a.Heap) (i : ℕ)
    → i + 1 < n
    → let (c, h') = a.calloc n 1 h in a.byte h' c i ≡ byte' h' c i

bind_same {ℓ} :
    {A B : Type ℓ} (r : Run A) (f g : A → Run B) → ((x : A) → f x ≡ g x) → (r >>= f) ≡ (r >>= g)
bind_same (ok x) f g e = e x
bind_same fault f g e = refl
bind_same hung f g e = refl

module _ (a : Allocator) (s : Setting) (byte' : a.Heap → Capability → ℕ → ℕ)
    (agrees : AgreesButLast a byte') where
  abbrev other : Allocator
  other = record a { byte = byte' }

  check_zeros_same :
      (count i n : ℕ) (h : a.Heap) (c : Capability)
      → i + count < n
      → ((j : ℕ) → j + 1 < n → a.byte h c j ≡ byte' h c j)
      → check_zeros a s count i h c ≡ check_zeros other s count i h c
  unfolding check_zeros read
  check_zeros_same zero i n h c room e = refl
  check_zeros_same (suc count) i n h c room e =
      rw (e i (omega arith), check_zeros_same count (i + 1) n h c (omega arith) e) refl

  check_size_same : (n : ℕ) (h : a.Heap) → 0 < n → check_size a s n h ≡ check_size other s n h
  unfolding check_size check_allocation
  check_size_same n h pos =
      let (p, h1) = a.malloc n h in
      let (b, h2) = a.calloc n 1 h1 in
      ap
        (λ r.
          if check_allocation a s h1 p n
          then (if check_allocation a s h2 b n
              then (r >>= λ h3. ok (a.free b (a.free p h3)))
              else fault)
          else fault)
        (check_zeros_same (n - 1) 0 n h2 b (omega arith) (agrees n h1))

  check_sizes_same :
      (count i : ℕ) (h : a.Heap) → check_sizes a s count i h ≡ check_sizes other s count i h
  unfolding check_sizes
  check_sizes_same zero i h = refl
  check_sizes_same (suc count) i h =
      ap (λ r. r >>= check_size a s (2 ^ i + 1) >>= check_sizes a s count (i + 1))
        (check_size_same (2 ^ i) h (two_pow_pos i))
      ∙ ap (λ r. r >>= check_sizes a s count (i + 1))
          (bind_same (check_size other s (2 ^ i) h) (check_size a s (2 ^ i + 1))
            (check_size other s (2 ^ i + 1)) (λ h'. check_size_same (2 ^ i + 1) h' (omega arith)))
      ∙ bind_same (check_size other s (2 ^ i) h >>= check_size other s (2 ^ i + 1))
          (check_sizes a s count (i + 1)) (check_sizes other s count (i + 1))
          (check_sizes_same count (i + 1))

  -- The test cannot tell two allocators apart that hand out the same blocks and whose contents
  -- agree, after each calloc, on all bytes of the new block but the last: its outcome is the same,
  -- for any allocator and heap.
  pub libc_malloc-AgreesButLast : (h : a.Heap) → libc_malloc a s h ≡ libc_malloc other s h
  unfolding libc_malloc
  libc_malloc-AgreesButLast h = check_sizes_same _ 1 h
