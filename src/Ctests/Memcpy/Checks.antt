-- ===== src/Ctests/Memcpy/Checks.antt =====
-- libc_memcpy.c: the assertions after a call of the function under test.
use cheritest.Common.{
  ℕ, ◌+◌, ◌-◌, ◌≤◌, ◌<◌, ◌≡◌, ◌∙◌, refl, ap, Bool, true, not, ◌&&◌, ◌==◌, if◌then◌else◌, Run, ok,
  fault, ◌>>=◌, arith,
}
use cheritest.Ctests.Memory.{Memory, Layout, load_pointer}
use cheritest.Ctests.Memcpy.{
  pad0, pad1, y, check, sizeof_test, checked, checked_moved, invalidated, check_moved,
}
use cheritest.Ctests.Memcpy.Laws.{Good, Good-bind}
use cheritest.Ctests.Memcpy.Frame.{for_all_lem}
use cheritest.Ctests.Memcpy.Source.{IsSource}
use cheritest.Ctests.Memcpy.Copied.{Trial, IsCopy, IsStep, invalidated-Good}

module _ (l : Layout) (memcpy : (dst src n : ℕ) → Memory → Run (ℕ × Memory)) (t1 t2 : ℕ)
    (trial : Trial l memcpy t1 t2) where
  open l use {psize}
  open trial use {il, im, at1, at2, apart, in1, in2}

  -- The assertions on a copy at the same offset hold, for the bytes that it has copied.
  check_lem :
      (k n start end : ℕ) (m : Memory)
      → IsCopy l memcpy t1 t2 trial k k n m
      → k ≤ start
      → start ≤ 32
      → 32 + psize + end ≤ k + n
      → end ≤ 32
      → check l t2 start end m ≡ true
  unfolding check load_pointer
  check_lem k n start end m c a b f g =
      all_four
        (for_all_lem (32 - start) start _ λ j from to. equal (
          at (pad0 l t2 + j) j refl (omega (arith, a)) (omega arith)
          ∙ c.source.at_pad0 j (omega arith)))
        (equal (
          il.decode-encode _ t2 (omega (arith, in2)) λ j to.
            at (y l t2 + j) (32 + j) (omega arith) (omega arith) (omega arith)
            ∙ ap m.byte {x = t1 + (32 + j)} {y = t1 + 32 + j} (omega arith)
            ∙ c.source.at_y j to))
        (c.tag_kept refl (omega arith) (omega arith))
        (for_all_lem end 0 _ λ j from to. equal (
          at (pad1 l t2 + j) (32 + psize + j) (omega arith) (omega arith) (omega arith)
          ∙ ap m.byte {x = t1 + (32 + psize + j)} {y = t1 + 32 + psize + j} (omega arith)
          ∙ c.source.at_pad1 j (omega arith)))
    where
      all_four :
          {p q r s : Bool}
          → p ≡ true
          → q ≡ true
          → r ≡ true
          → s ≡ true
          → (p && (q && (r && s))) ≡ true
      all_four e f g h = cc

      equal : {x z : ℕ} → x ≡ z → (x == z) ≡ true
      equal e = ground (arith, e)

      at : (x j : ℕ) → x ≡ t2 + j → k ≤ j → j < k + n → m.byte x ≡ m.byte (t1 + j)
      at x j e from to =
          ap m.byte e
          ∙ c.copied j from to
          ∙ ap (λ i. m.byte (t1 + i)) {x = k + (j - k)} {y = j} (omega arith)

  -- After the copy that moves everything down by one byte, the other assertions hold.
  check_moved_lem :
      (m : Memory)
      → IsCopy l memcpy t1 t2 trial 0 1 (sizeof_test l - 1) m
      → check_moved l t2 m ≡ true
  unfolding check_moved
  check_moved_lem m c = both (ap not (c.tag_gone refl refl (omega arith))) (
      for_all_lem 31 0 _ λ j from to.
        both
          (equal (
            at (pad0 l t2 + j) j refl (omega arith)
            ∙ ap m.byte {x = t1 + (1 + j)} {y = t1 + (j + 1)} (omega arith)
            ∙ c.source.at_pad0 (j + 1) (omega arith)))
          (equal (
            at (pad1 l t2 + j) (32 + psize + j) (omega arith) (omega arith)
            ∙ ap m.byte {x = t1 + (1 + (32 + psize + j))} {y = t1 + 32 + psize + (j + 1)}
                (omega arith)
            ∙ c.source.at_pad1 (j + 1) (omega arith))))
    where
      both : {p q : Bool} → p ≡ true → q ≡ true → (p && q) ≡ true
      both e f = cc

      equal : {x z : ℕ} → x ≡ z → (x == z) ≡ true
      equal e = ground (arith, e)

      at : (x j : ℕ) → x ≡ t2 + j → j < sizeof_test l - 1 → m.byte x ≡ m.byte (t1 + (1 + j))
      at x j e to =
          ap m.byte e
          ∙ c.copied j (omega arith) (omega arith)
          ∙ ap (λ i. m.byte (t1 + (1 + i))) {x = j - 0} {y = j} (omega arith)

  checked-Good :
      (k n start end : ℕ) (m : Memory)
      → IsCopy l memcpy t1 t2 trial k k n m
      → k ≤ start
      → start ≤ 32
      → 32 + psize + end ≤ k + n
      → end ≤ 32
      → Good (IsSource l t1 t2) (checked l t2 start end m)
  unfolding checked
  checked-Good k n start end m c a b f g =
      (m, ap (λ t. if t then ok m else fault) (check_lem k n start end m c a b f g), c.source)

  -- A copy at the same offset, with the assertions after it.
  pub copy_checked :
      (k n start end : ℕ) (copies : Memory → Run Memory)
      → ((m : Memory) → IsSource l t1 t2 m → Good (IsCopy l memcpy t1 t2 trial k k n) (copies m))
      → k ≤ start
      → start ≤ 32
      → 32 + psize + end ≤ k + n
      → end ≤ 32
      → (r : Run Memory) → Good (IsSource l t1 t2) r
      → Good (IsSource l t1 t2) (r >>= copies >>= checked l t2 start end)
  copy_checked k n start end copies good a b f g r h =
      Good-bind (IsCopy l memcpy t1 t2 trial k k n) (IsSource l t1 t2) (r >>= copies)
        (checked l t2 start end)
        (Good-bind (IsSource l t1 t2) (IsCopy l memcpy t1 t2 trial k k n) r copies h good)
        λ m c. checked-Good k n start end m c a b f g

  pub and_then :
      (f : Memory → Run Memory)
      → ((m : Memory) → IsSource l t1 t2 m → Good (IsSource l t1 t2) (f m))
      → (r : Run Memory) → Good (IsSource l t1 t2) r
      → Good (IsSource l t1 t2) (r >>= f)
  and_then f g r h = Good-bind (IsSource l t1 t2) (IsSource l t1 t2) r f h g

  -- The four copies at the same alignment, with their assertions.
  pub four_copies :
      (step : (dst src n : ℕ) → Memory → Run Memory)
      → IsStep l memcpy t1 t2 trial step
      → (m : Memory) → IsSource l t1 t2 m
      → Good (IsSource l t1 t2) (
          step t2 t1 (sizeof_test l) m
          >>= checked l t2 0 32
          >>= invalidated l t2
          >>= step (t2 + 3) (t1 + 3) (sizeof_test l - 3)
          >>= checked l t2 3 32
          >>= step t2 t1 (sizeof_test l - 3)
          >>= checked l t2 0 29
          >>= step (t2 + 3) (t1 + 3) (sizeof_test l - 6)
          >>= checked l t2 3 29
          >>= invalidated l t2)
  four_copies step good m h = and_then _ (invalidated-Good l memcpy t1 t2 trial) _ (
      from_three (sizeof_test l - 6) 29 (omega arith) (omega arith) (omega arith) _ (
        from_start (sizeof_test l - 3) 29 (omega arith) (omega arith) (omega arith) _ (
          from_three (sizeof_test l - 3) 32 (omega arith) (omega arith) (omega arith) _ (
            and_then _ (invalidated-Good l memcpy t1 t2 trial) _ (
              from_start (sizeof_test l) 32 (omega arith) (omega arith) (omega arith) (ok m)
                (m, refl, h))))))
    where
      from_start :
          (n end : ℕ)
          → n ≤ 64 + psize
          → 32 + psize + end ≤ n
          → end ≤ 32
          → (r : Run Memory) → Good (IsSource l t1 t2) r
          → Good (IsSource l t1 t2) (r >>= step t2 t1 n >>= checked l t2 0 end)
      from_start n end fits f g =
          copy_checked 0 n 0 end (step t2 t1 n)
            (good 0 0 n t2 t1 (omega arith) (omega arith) (omega arith) (omega arith)) (omega arith)
            (omega arith) (omega arith) g

      from_three :
          (n end : ℕ)
          → 3 + n ≤ 64 + psize
          → 32 + psize + end ≤ 3 + n
          → end ≤ 32
          → (r : Run Memory) → Good (IsSource l t1 t2) r
          → Good (IsSource l t1 t2) (r >>= step (t2 + 3) (t1 + 3) n >>= checked l t2 3 end)
      from_three n end fits f g =
          copy_checked 3 n 3 end (step (t2 + 3) (t1 + 3) n)
            (good 3 3 n (t2 + 3) (t1 + 3) refl refl fits fits) (omega arith) (omega arith) f g

  -- The copy that moves everything down by one byte, with its assertions.
  pub one_copy_moved :
      (step : (dst src n : ℕ) → Memory → Run Memory)
      → IsStep l memcpy t1 t2 trial step
      → (m : Memory) → IsSource l t1 t2 m
      → Good (IsSource l t1 t2) (step t2 (t1 + 1) (sizeof_test l - 1) m >>= checked_moved l t2)
  unfolding checked_moved
  one_copy_moved step good m h =
      Good-bind (IsCopy l memcpy t1 t2 trial 0 1 (sizeof_test l - 1)) (IsSource l t1 t2)
        (step t2 (t1 + 1) (sizeof_test l - 1) m) _
        (good 0 1 (sizeof_test l - 1) t2 (t1 + 1) (omega arith) refl (omega arith) (omega arith) m
          h)
        λ m' c. (m', ap (λ t. if t then ok m' else fault) (check_moved_lem m' c), c.source)
