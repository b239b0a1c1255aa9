-- ===== src/Dma/Program/Encodes.antt =====
-- Which instructions are a program for a structure, and that `write_random_dma_program` writes one.
use cheritest.Common.{
  ℕ, ◌+◌, ◌*◌, ◌%◌, ◌^◌, ◌≤◌, ◌<◌, ◌≡◌, refl, ap, ◌∙◌, ◌⊎◌, inl, inr, true, false, Option, some,
  ◌==◌, leb, lt→ltb, sym, if◌then◌else◌, ok, fault, List, [], ◌∷◌, ◌++◌, length, length-append,
  arith, Bool-cases,
}
use cheritest.Dma.Program.{DmaAsm, Writer, emit, write_op, write_random_dma_program}
use cheritest.Dma.Rand.{draw, next_state, myrand}
use cheritest.Dma.Tree.{Tree, loop, seq, op, dma_program_length, loop_depth}

module _ (asm : DmaAsm) (ts : ℕ) where
  -- A leaf's instruction: a transfer of the program's size, or an addition of a multiple of that
  -- size to one of three targets.
  abbrev pub IsOp : ℕ → Type 0
  IsOp x =
      (x ≡ asm.dma_op_transfer ts)
      ⊎ ((target amount : ℕ) × (target < 3)
          × (amount < 20)
          × (x ≡ asm.dma_op_add target (2 ^ ts * amount)))

  -- A loop sets its own register to a count from 1 to 5, and jumps back over exactly its body,
  -- which uses higher registers only; a sequence is one program after the other.
  abbrev pub Encodes : Tree → (level : ℕ) → List ℕ → Type 0
  Encodes op level is = (x : ℕ) × (is ≡ x ∷ []) × IsOp x
  Encodes (loop t) level is =
      (count : ℕ) × (body : List ℕ) × (1 ≤ count)
      × (count ≤ 5)
      × (is ≡ asm.dma_op_set level count ∷ (body ++ asm.dma_op_loop level (length body) ∷ []))
      × Encodes t (level + 1) body
  Encodes (seq left right) level is =
      (first : List ℕ) × (second : List ℕ) × (is ≡ first ++ second)
      × Encodes left level first
      × Encodes right level second

le→leb : (a b : ℕ) → a ≤ b → leb a b ≡ true
le→leb a b h = ground arith

lt→not_leb : (a b : ℕ) → a < b → leb b a ≡ false
lt→not_leb a b h = ground arith

-- The words put into the array from an index on.
abbrev pub place : List ℕ → ℕ → (ℕ → Option ℕ) → ℕ → Option ℕ
place [] at cell = cell
place (x ∷ xs) at cell = place xs (at + 1) (λ i. if at == i then some x else cell i)

place-append :
    (xs ys : List ℕ) (at : ℕ) (cell : ℕ → Option ℕ)
    → place (xs ++ ys) at cell ≡ place ys (at + length xs) (place xs at cell)
place-append [] ys at cell = ap (λ n. place ys n cell) (omega arith)
place-append (x ∷ xs) ys at cell =
    place-append xs ys (at + 1) (λ i. if at == i then some x else cell i)
    ∙ ap (λ n. place ys n (place xs (at + 1) (λ i. if at == i then some x else cell i)))
        (omega arith)

-- The writer after the words, with the generator in a state `next`.
abbrev pub advanced : Writer → (next : ℕ) → List ℕ → Writer
advanced w next is = record {
  next = next;
  size = w.size;
  cell = place is w.at w.cell;
  at = w.at + length is;
}

pub advanced-append :
    (w : Writer) (n m : ℕ) (is js : List ℕ)
    → advanced (advanced w n is) m js ≡ advanced w m (is ++ js)
advanced-append w n m is js = λ i. record { next = m; size = w.size; cell = cells i; at = ends i }
  where
    cells : place js (w.at + length is) (place is w.at w.cell) ≡ place (is ++ js) w.at w.cell
    cells = sym (place-append is js w.at w.cell)

    ends : w.at + length is + length js ≡ w.at + length (is ++ js)
    ends = omega (arith, length-append is js)

pub emit_lem : (x : ℕ) (w : Writer) → w.at < w.size → emit x w ≡ ok (advanced w w.next (x ∷ []))
unfolding emit
emit_lem x w h = rw (lt→ltb _ _ h)

module _ (asm : DmaAsm) (ts : ℕ) where
  write_op_lem :
      (w : Writer)
      → w.at < w.size
      → (next x : ℕ) × (write_op asm ts w ≡ ok (advanced w next (x ∷ []))) × IsOp asm ts x
  unfolding write_op myrand
  write_op_lem w h =
      let n1 = next_state w.next in
      let n2 = next_state n1 in
      let n3 = next_state n2 in
      elim (Bool-cases (draw n1 % 2 == 0)) [
        | inl even ↦ (
          n1,
          asm.dma_op_transfer ts,
          rw even (emit_lem (asm.dma_op_transfer ts) (record w { next = n1 }) h),
          inl refl,
        )
        | inr odd ↦
            let x = asm.dma_op_add (draw n2 % 3) (2 ^ ts * (draw n3 % 20)) in
            (
              n3,
              x,
              rw odd (emit_lem x (record w { next = n3 }) h),
              inr (draw n2 % 3, draw n3 % 20, omega arith, omega arith, refl),
            )
      ]

  -- What writing achieves if the array has room for it.
  abbrev Writes : Tree → (level : ℕ) → Writer → Type 0
  Writes t level w =
      (next : ℕ) × (is : List ℕ) × (write_random_dma_program asm ts t level w
        ≡ ok (advanced w next is))
      × (length is ≡ dma_program_length t)
      × Encodes asm ts t level is

  pub write_lem :
      (t : Tree) (level : ℕ) (w : Writer)
      → loop_depth t + level ≤ 4
      → w.at + dma_program_length t ≤ w.size
      → Writes t level w
  unfolding write_random_dma_program loop_depth dma_program_length myrand
  write_lem op level w shallow room =
      let (next, x, runs, is_op) = write_op_lem w (omega arith) in
      (next, x ∷ [], rw (le→leb level 4 (omega arith)) runs, refl, (x, refl, is_op))
  write_lem (seq left right) level w shallow room =
      let (n, is, runs, count, enc) = write_lem left level w (omega arith) (omega arith) in
      let (m, js, runs', count', enc') =
        write_lem right level (advanced w n is) (omega arith) (omega arith) in
      (
        m,
        is ++ js,
        rw (le→leb level 4 (omega arith), runs, runs') (ap ok (advanced-append w n m is js)),
        omega (arith, length-append is js),
        (is, js, refl, enc, enc'),
      )
  write_lem (loop body) level w shallow room =
      let n1 = next_state w.next in
      let set = asm.dma_op_set level (1 + draw n1 % 5) in
      let w1 = advanced w n1 (set ∷ []) in
      let (n, is, runs, count, enc) = write_lem body (level + 1) w1 (omega arith) (omega arith) in
      let back = asm.dma_op_loop level (dma_program_length body) in
      (
        n,
        set ∷ (is ++ back ∷ []),
        rw
            (
              le→leb level 4 (omega arith),
              emit_lem set (record w { next = n1 }) (omega arith),
              runs,
              emit_lem back (advanced w1 n is) (omega arith),
            )
            (ap ok (advanced-append w1 n n is (back ∷ []))
              ∙ ap ok (advanced-append w n1 n (set ∷ []) (is ++ back ∷ []))),
        omega (arith, length-append is (back ∷ [])),
        (
          1 + draw n1 % 5,
          is,
          omega arith,
          omega arith,
          ap (λ k. set ∷ (is ++ asm.dma_op_loop level k ∷ [])) (sym count),
          enc,
        ),
      )

  -- A structure whose loops nest deeper than the assertion allows.
  pub write_deep :
      (t : Tree) (level : ℕ) (w : Writer)
      → 4 < loop_depth t + level
      → w.at + dma_program_length t ≤ w.size
      → write_random_dma_program asm ts t level w ≡ fault
  unfolding write_random_dma_program loop_depth dma_program_length myrand
  write_deep op level w deep room = rw (lt→not_leb 4 level (omega arith))
  write_deep (seq left right) level w deep room = elim (Bool-cases (leb level 4)) [
    | inr over ↦ rw over
    | inl fits ↦ elim (Bool-cases (leb (loop_depth left + level) 4)) [
      | inr left_deep ↦ rw (fits, write_deep left level w (ground arith) (omega arith))
      | inl shallow ↦
          let (n, is, runs, count, enc) = write_lem left level w (ground arith) (omega arith) in
          rw (fits, runs, write_deep right level (advanced w n is) (ground arith) (omega arith))
    ]
  ]
  write_deep (loop body) level w deep room = elim (Bool-cases (leb level 4)) [
    | inr over ↦ rw over
    | inl fits ↦
        let n1 = next_state w.next in
        let set = asm.dma_op_set level (1 + draw n1 % 5) in
        rw (
          fits,
          emit_lem set (record w { next = n1 }) (omega arith),
          write_deep body (level + 1) (advanced w n1 (set ∷ [])) (omega arith) (omega arith),
        )
  ]
