-- ===== src/Ctests/Cursor/Correct.antt =====
-- clang_hybrid_cursor.c: no assertion fails and no access is out of bounds.
use cheritest.Common.{
  ℕ, zero, suc, ◌+◌, ◌-◌, ◌*◌, ◌%◌, ◌^◌, ◌≤◌, ◌<◌, ◌≡◌, ◌∙◌, refl, ap, subst, ◌⊎◌, inl, inr, true,
  ◌&&◌, ◌==◌, if◌then◌else◌, Run, ok, fault, ◌>>=◌, arith,
}
use cheritest.Ctests.Cursor.{
  CursorBuiltins, CursorLaws, in_bounds, store_int, load_int, set_loop, get_loop, assert_that,
  clang_hybrid_cursor,
}

module _ (b : CursorBuiltins) (l : CursorLaws b) (buffer : ℕ)
    (in_space : buffer + 42 * 4 ≤ 2 ^ 64) where
  open b use {
    Cap, to_cap, from_cap, bounds_set, offset_increment, offset_set, base_get, offset_get,
    length_get,
  }

  -- A pointer into the array, at the offset `o`.
  record IsPointer (x : Cap) (o : ℕ) : Type 0 where
    base : base_get x ≡ buffer
    extent : length_get x ≡ 168
    offset : offset_get x ≡ o % 2 ^ 64

  increment-IsPointer :
      (x : Cap) (o p : ℕ) → IsPointer x o → IsPointer (offset_increment x p) (o + p)
  increment-IsPointer x o p h = record {
    base = l.base_get-increment x p ∙ h.base;
    extent = l.length_get-increment x p ∙ h.extent;
    offset = omega (arith, l.offset_get-increment x p, h.offset);
  }

  IsPointer-address :
      (x : Cap) (i o : ℕ)
      → i < 42
      → o % 2 ^ 64 ≡ 4 * i
      → IsPointer x o
      → from_cap x ≡ buffer + 4 * i
  IsPointer-address x i o lt e h = omega (arith, l.from_cap-address x, h.base, h.offset, in_space)

  IsPointer-bounds :
      (x : Cap) (i o : ℕ) → i < 42 → o % 2 ^ 64 ≡ 4 * i → IsPointer x o → in_bounds b x ≡ true
  IsPointer-bounds x i o lt e h = ground (arith, h.offset, h.extent)

  -- The elements from `i` on are their indices, those before it are as they were.
  record IsFilled (count i : ℕ) (m m' : ℕ → ℕ) : Type 0 where
    filled : (j : ℕ) → i ≤ j → j < i + count → m' (buffer + 4 * j) ≡ j
    kept : (j : ℕ) → j < i → m' (buffer + 4 * j) ≡ m (buffer + 4 * j)

  set_loop-IsFilled :
      (count i : ℕ) (x : Cap) (m : ℕ → ℕ)
      → i + count ≤ 42
      → IsPointer x 0
      → (m' : ℕ → ℕ) × (set_loop b count i x m ≡ ok m') × IsFilled count i m m'
  unfolding set_loop store_int
  set_loop-IsFilled zero i x m room h =
      (m, refl, record { filled = λ j u v. absurd (omega arith); kept = λ j u. refl })
  set_loop-IsFilled (suc count) i x m room h =
      let c = offset_increment x (4 * i) in
      let h' : IsPointer c (4 * i) =
        subst (IsPointer c) {x = 0 + 4 * i} {y = 4 * i} (omega arith)
          (increment-IsPointer x 0 (4 * i) h) in
      let at : from_cap c ≡ buffer + 4 * i =
        IsPointer-address c i (4 * i) (omega arith) (omega arith) h' in
      let m1 : ℕ → ℕ = λ p. if p == from_cap c then i else m p in
      let (m', e, f) = set_loop-IsFilled count (i + 1) x m1 (omega arith) h in
      (
        m',
        ap (λ t. (if t then ok m1 else fault) >>= set_loop b count (i + 1) x)
              (IsPointer-bounds c i (4 * i) (omega arith) (omega arith) h')
            ∙ e,
        record {
          filled = λ j u v. elim (eq_or_gt j u) [
            | inl k ↦ f.kept j (omega arith) ∙ ground (arith, at, k)
            | inr k ↦ f.filled j (omega arith) (omega arith)
          ];
          kept = λ j u. f.kept j (omega arith) ∙ ground (arith, at);
        },
      )
    where
      eq_or_gt : (j : ℕ) → i ≤ j → (j ≡ i) ⊎ (i < j)
      eq_or_gt j u = omega arith

  get_loop_lem :
      (n : ℕ) (x : Cap) (o : ℕ) (m : ℕ → ℕ)
      → n ≤ 42
      → (o + 4) % 2 ^ 64 ≡ 4 * n
      → IsPointer x o
      → ((j : ℕ) → j < n → m (buffer + 4 * j) ≡ j)
      → get_loop b n x m ≡ ok m
  unfolding get_loop load_int
  get_loop_lem zero x o m room e h f = refl
  get_loop_lem (suc i) x o m room e h f =
      ap
        (λ t. (if t then ok (m (from_cap x)) else fault) >>= λ v.
          if v == i then get_loop b i (offset_increment x (2 ^ 64 - 4)) m else fault)
        (IsPointer-bounds x i o (omega arith) (omega arith) h)
      ∙ ap (λ v. if v == i then get_loop b i (offset_increment x (2 ^ 64 - 4)) m else fault)
          (ap m (IsPointer-address x i o (omega arith) (omega arith) h) ∙ f i (omega arith))
      ∙ ap (λ t. if t then get_loop b i (offset_increment x (2 ^ 64 - 4)) m else fault) {x = i == i}
          {y = true} (ground arith)
      ∙ get_loop_lem i (offset_increment x (2 ^ 64 - 4)) (o + (2 ^ 64 - 4)) m (omega arith)
          (omega arith) (increment-IsPointer x o (2 ^ 64 - 4) h) (λ j u. f j (omega arith))

  -- For an array of 42 integers within the address space, and built-in functions that act on
  -- capabilities as the architecture says: the test ends, no assertion fails, and no access is out of
  -- bounds.
  pub clang_hybrid_cursor-passes :
      (m : ℕ → ℕ) → (m' : ℕ → ℕ) × (clang_hybrid_cursor b buffer m ≡ ok m')
  unfolding clang_hybrid_cursor
  clang_hybrid_cursor-passes m =
      let c = bounds_set (to_cap buffer) (42 * 4) in
      let d = offset_increment c (41 * 4) in
      let start : IsPointer c 0 = record {
        base =
            l.base_get-bounds_set (to_cap buffer) (42 * 4)
            ∙ l.from_cap-to_cap buffer (omega (arith, in_space));
        extent = l.length_get-bounds_set (to_cap buffer) (42 * 4);
        offset = l.offset_get-bounds_set (to_cap buffer) (42 * 4);
      } in
      let end : IsPointer d 164 = increment-IsPointer c 0 164 start in
      let (m', e, f) = set_loop-IsFilled 42 0 c m (omega arith) start in
      let v = offset_set (offset_increment d 42) 0 in
      let rewound : Run (ℕ → ℕ) → Run (ℕ → ℕ) = λ r. r >>= assert_that b (offset_get v == 0) in
      let got : Run (ℕ → ℕ) → Run (ℕ → ℕ) = λ r. rewound (r >>= get_loop b 42 d) in
      let moved : Run (ℕ → ℕ) → Run (ℕ → ℕ) =
        λ r. got (r >>= assert_that b (41 * 4 == offset_get d && from_cap d == buffer + 41 * 4)) in
      (
        m',
        ap (λ t. moved (assert_that b t m >>= set_loop b 42 0 c))
              {x = buffer == base_get c && (0 == offset_get c && 42 * 4 == length_get c)} {y = true}
              (ground (arith, start.base, start.extent, start.offset))
            ∙ ap moved e
            ∙ ap (λ t. got (assert_that b t m'))
                {x = 41 * 4 == offset_get d && from_cap d == buffer + 41 * 4} {y = true}
                (ground
                  (arith, end.offset, IsPointer-address d 41 164 (omega arith) (omega arith) end))
            ∙ ap rewound (
                get_loop_lem 42 d 164 m' (omega arith) (omega arith) end
                  (λ j u. f.filled j (omega arith) (omega arith)))
            ∙ ap (λ t. assert_that b t m') {x = offset_get v == 0} {y = true}
                (ground (arith, l.offset_get-set (offset_increment d 42) 0)),
      )
