-- ===== src/Dma/Program/Correct.antt =====
-- What `generate_random_dma_program` returns.
use cheritest.Common.{
  ℕ, zero, suc, ◌+◌, ◌%◌, ◌≤◌, ◌<◌, ◌≡◌, refl, ap, Option, none, some, ◌==◌, if◌then◌else◌, ok,
  fault, List, [], ◌∷◌, ◌++◌, length, get_elem?, length-append, arith, ltb, Every, Every-ok,
}
use cheritest.Dma.Program.{
  DmaAsm, Writer, Program, finish, read_tree, structure, generate_random_dma_program,
}
use cheritest.Dma.Program.Encodes.{
  Encodes, place, advanced, advanced-append, emit_lem, write_lem, write_deep,
}
use cheritest.Dma.Program.Read.{read_tree_lem}
use cheritest.Dma.Rand.{draw, next_state, myrand}
use cheritest.Dma.Structure.{Build, random_dma_program_structure}
use cheritest.Dma.Structure.Correct.{structure-Represents}
use cheritest.Dma.Structure.Free.{Live, free_dma_program_structure}
use cheritest.Dma.Structure.Release.{Represents-Released}
use cheritest.Dma.Tree.{Tree, dma_program_length, loop_depth}

pub structure_total :
    (seed : ℕ)
    → (t : Tree) × (next : ℕ) × (structure seed ≡ ok (t, next)) × (dma_program_length t ≤ 25)
unfolding structure
structure_total seed =
    let (b, t, runs, is) = structure-Represents seed in
    (
      t,
      b.next,
      rw (runs, read_tree_lem b.store t 26 0 is.stands (omega (arith, is.short))),
      is.short,
    )

place_below : (xs : List ℕ) (at i : ℕ) (cell : ℕ → Option ℕ) → i < at → place xs at cell i ≡ cell i
place_below [] at i cell h = refl
place_below (x ∷ xs) at i cell h =
    ground (arith, place_below xs (at + 1) i (λ i. if at == i then some x else cell i))

place_from :
    (xs : List ℕ) (at j i : ℕ) (cell : ℕ → Option ℕ)
    → i ≡ at + j
    → ((k : ℕ) → at ≤ k → cell k ≡ none)
    → place xs at cell i ≡ get_elem? xs j
place_from [] at j i cell e blank = blank i (omega arith)
place_from (x ∷ xs) at zero i cell e blank =
    ground (arith, place_below xs (at + 1) i (λ i. if at == i then some x else cell i))
place_from (x ∷ xs) at (suc j) i cell e blank =
    place_from xs (at + 1) j i (λ i. if at == i then some x else cell i) (omega arith)
      (λ k h. ground (arith, blank k))

-- The array holds exactly the words of the list.
abbrev pub Holds : Program → List ℕ → Type 0
Holds p is = (p.size ≡ length is) × ((i : ℕ) → p.cell i ≡ get_elem? is i)

-- The writer that `generate_random_dma_program` starts from, once the transfer size is drawn.
abbrev blank : Tree → ℕ → Writer
blank t next = record { next = next; size = dma_program_length t + 1; cell = λ i. none; at = 0 }

-- What a program for the tree is: some size, the tree's instructions at register 0, then the stop,
-- filling the array.
pub record IsProgram (asm : DmaAsm) (t : Tree) (p : Program) : Type 0 where
  pub ts : ℕ
  pub body : List ℕ
  pub size_fits : ts < 6
  pub encodes : Encodes asm ts t 0 body
  pub body_length : length body ≡ dma_program_length t
  pub holds : Holds p (body ++ asm.dma_op_stop ∷ [])

-- What stands behind a result of `structure`: a store that the tree is read from, with all of its
-- nodes released in the end.
record IsGrown (seed : ℕ) (r : Tree × ℕ) : Type 0 where
  build : Build
  live : Live
  runs : random_dma_program_structure seed ≡ ok build
  reads : read_tree 26 build.store 0 ≡ ok r.0
  same_next : build.next ≡ r.1
  frees : free_dma_program_structure build.store 25 0 (λ q. ltb q build.store.used) ≡ ok live

structure-IsGrown : (seed : ℕ) → Every (IsGrown seed) (structure seed)
unfolding structure
structure-IsGrown seed =
    let (b, t, runs, is) = structure-Represents seed in
    let (live, frees, none_live) = Represents-Released b t is in
    let reads = read_tree_lem b.store t 26 0 is.stands (omega (arith, is.short)) in
    rw (runs, reads)
      (record {
        build = b;
        live = live;
        runs = runs;
        reads = reads;
        same_next = refl;
        frees = frees;
      })

module _ (asm : DmaAsm) (seed : ℕ) (t : Tree) (next : ℕ)
    (shape : structure seed ≡ ok (t, next)) where
  grown : IsGrown seed (t, next)
  grown = Every-ok (IsGrown seed) (structure seed) (t, next) (structure-IsGrown seed) shape

  -- If the loops of the structure nest at most four deep, the generator writes a program for it, of
  -- exactly the length that was allocated: each loop counts from 1 to 5 in a register of its own
  -- that its body does not set, jumps back over its body, and the only stop that is added is last.
  pub generate-IsProgram :
      loop_depth t ≤ 4
      → (p : Program) × (generate_random_dma_program asm seed ≡ ok p) × IsProgram asm t p
  unfolding generate_random_dma_program finish myrand
  generate-IsProgram shallow =
      let n1 = next_state next in
      let ts = draw n1 % 6 in
      let w = blank t n1 in
      let (n, is, runs, count, enc) = write_lem asm ts t 0 w (omega arith) (omega arith) in
      let full = advanced w n (is ++ asm.dma_op_stop ∷ []) in
      (
        finish full,
        rw
            (
              grown.runs,
              grown.reads,
              grown.same_next,
              runs,
              emit_lem asm.dma_op_stop (advanced w n is) (omega arith),
              grown.frees,
            )
            (ap (λ w. ok (finish w)) (advanced-append w n n is (asm.dma_op_stop ∷ []))),
        record {
          ts = ts;
          body = is;
          size_fits = omega arith;
          encodes = enc;
          body_length = count;
          holds = (
            omega (arith, length-append is (asm.dma_op_stop ∷ [])),
            λ i.
                place_from (is ++ asm.dma_op_stop ∷ []) 0 i i (λ j. none) (omega arith)
                  (λ k h. refl),
          );
        },
      )

  -- If they nest deeper, the assertion on the loop level fails.
  pub generate_deep : 4 < loop_depth t → generate_random_dma_program asm seed ≡ fault
  unfolding generate_random_dma_program myrand
  generate_deep deep =
      let n1 = next_state next in
      rw (
        grown.runs,
        grown.reads,
        grown.same_next,
        write_deep asm (draw n1 % 6) t 0 (blank t n1) (omega arith) (omega arith),
      )
