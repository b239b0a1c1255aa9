-- ===== src/Ctests/Memcpy/Correct.antt =====
-- libc_memcpy.c: the test passes for every memcpy that keeps its promise.
use cheritest.Common.{
  ℕ, ◌+◌, ◌-◌, ◌%◌, ◌^◌, ◌≤◌, ◌<◌, ◌≡◌, ◌⊎◌, refl, sym, subst, Run, ok, ◌>>=◌, arith,
}
use cheritest.Ctests.Memory.{Memory, Layout, IsLayout, load_pointer}
use cheritest.Ctests.Memcpy.{
  y, sizeof_test, set_up, call, checked, invalidated, aligned_copies, unaligned_copy, libc_memcpy,
}
use cheritest.Ctests.Memcpy.Laws.{IsMemcpy, Good}
use cheritest.Ctests.Memcpy.Source.{IsSource, set_up-IsSource}
use cheritest.Ctests.Memcpy.Copied.{Trial, call-IsStep, invalidated-Good}
use cheritest.Ctests.Memcpy.Checks.{four_copies, one_copy_moved, and_then, copy_checked}

module _ (l : Layout) (memcpy : (dst src n : ℕ) → Memory → Run (ℕ × Memory)) (t1 t2 : ℕ)
    (trial : Trial l memcpy t1 t2) where
  pub aligned_copies-Good :
      (m : Memory)
      → IsSource l t1 t2 m
      → Good (IsSource l t1 t2) (aligned_copies l memcpy t2 t1 t2 m)
  unfolding aligned_copies
  aligned_copies-Good = four_copies l memcpy t1 t2 trial _ (call-IsStep l memcpy t1 t2 trial)

  pub unaligned_copy-Good :
      (m : Memory) → IsSource l t1 t2 m → Good (IsSource l t1 t2) (unaligned_copy l memcpy t1 t2 m)
  unfolding unaligned_copy
  unaligned_copy-Good = one_copy_moved l memcpy t1 t2 trial _ (call-IsStep l memcpy t1 t2 trial)

  pub first_destination : (m : Memory) → IsSource l t1 t2 m → load_pointer l (y l t1) m ≡ t2
  unfolding load_pointer
  first_destination m h = trial.il.decode-encode _ t2 (omega (arith, trial.in2)) h.at_y

  -- The first half, which takes its first destination from memory.
  pub first_half-Good :
      (m : Memory)
      → IsSource l t1 t2 m
      → Good (IsSource l t1 t2) (
          aligned_copies l memcpy (load_pointer l (y l t1) m) t1 t2 m
          >>= unaligned_copy l memcpy t1 t2
          >>= invalidated l t2)
  first_half-Good m h = and_then l memcpy t1 t2 trial _ (invalidated-Good l memcpy t1 t2 trial) _ (
      and_then l memcpy t1 t2 trial _ unaligned_copy-Good _ (
        subst (λ d. Good (IsSource l t1 t2) (aligned_copies l memcpy d t1 t2 m))
          (sym (first_destination m h)) (aligned_copies-Good m h)))

  -- Everything after the structures are set up.
  copies-Good :
      (m : Memory)
      → IsSource l t1 t2 m
      → Good (IsSource l t1 t2) (
          aligned_copies l memcpy (load_pointer l (y l t1) m) t1 t2 m
          >>= unaligned_copy l memcpy t1 t2
          >>= invalidated l t2
          >>= aligned_copies l memcpy t2 t1 t2
          >>= unaligned_copy l memcpy t1 t2
          >>= invalidated l t2
          >>= call l memcpy (t2 + 3) (t2 + 3) (t1 + 3) (sizeof_test l - 6)
          >>= checked l t2 3 29)
  copies-Good m h =
      copy_checked l memcpy t1 t2 trial 3 (sizeof_test l - 6) 3 29 _
        (call-IsStep l memcpy t1 t2 trial 3 3 (sizeof_test l - 6) (t2 + 3) (t1 + 3) refl refl
          (omega arith) (omega arith))
        (omega arith) (omega arith) (omega arith) (omega arith) _
        (and_then l memcpy t1 t2 trial _ (invalidated-Good l memcpy t1 t2 trial) _ (
          and_then l memcpy t1 t2 trial _ unaligned_copy-Good _
            (and_then l memcpy t1 t2 trial _ aligned_copies-Good _ (first_half-Good m h))))

-- Where capabilities have 16 or 32 bytes and addresses of 64 bits come back from memory as they were
-- stored, and the two structures are aligned, in the address space and do not overlap: with a memcpy
-- that keeps its promise the test ends, and none of its assertions fails.
pub libc_memcpy-passes :
    (l : Layout)
    → IsLayout l
    → (memcpy : (dst src n : ℕ) → Memory → Run (ℕ × Memory)) → IsMemcpy l memcpy
    → (t1 t2 : ℕ) → t1 % l.psize ≡ 0
    → t2 % l.psize ≡ 0
    → (t1 + (64 + l.psize) ≤ t2) ⊎ (t2 + (64 + l.psize) ≤ t1)
    → t1 + (64 + l.psize) < 2 ^ 64
    → t2 + (64 + l.psize) < 2 ^ 64
    → (m : Memory) → (m' : Memory) × (libc_memcpy l memcpy t1 t2 m ≡ ok m')
unfolding libc_memcpy
libc_memcpy-passes l il memcpy im t1 t2 at1 at2 apart in1 in2 m =
    let trial : Trial l memcpy t1 t2 = record {
      il = il;
      im = im;
      at1 = at1;
      at2 = at2;
      apart = apart;
      in1 = in1;
      in2 = in2;
    } in
    let (m', e, _) =
      copies-Good l memcpy t1 t2 trial (set_up l t1 t2 m) (set_up-IsSource l t1 t2 at2 apart m) in
    (m', e)
