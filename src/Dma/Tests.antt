-- ===== src/Dma/Tests.antt =====
-- The DMA program generator at concrete seeds, and its theorems at inputs that meet the hypotheses.
use cheritest.Common.{
  ℕ, zero, suc, ◌+◌, ◌*◌, ◌≤◌, ◌≡◌, ◌≢◌, refl, none, some, List, [], ◌∷◌, length, Run, ok, fault,
  arith, ltb, leb, ◌&&◌, ◌==◌, if◌then◌else◌, false,
}
use cheritest.Common.Int.{◌*ℤ◌}
use cheritest.Dma.Program.{DmaAsm, Program, read_tree, structure, generate_random_dma_program}
use cheritest.Dma.Program.Correct.{IsProgram, Holds, generate-IsProgram, generate_deep}
use cheritest.Dma.Rand.{myrand, next_state, draw, mysrand, draw_zeros}
use cheritest.Dma.Structure.{
  Build, choose, fill_op, fill_loop, fill_seq, round, build_loop, start,
  random_dma_program_structure,
}
use cheritest.Dma.Structure.Correct.{Represents, structure-Represents}
use cheritest.Dma.Structure.Free.{Live, free_dma_program_structure}
use cheritest.Dma.Structure.Release.{structure-Released}
use cheritest.Dma.Transfers.{
  Transfer, dmam_stopped, Thread, Execute, Link, null, to, Heap, list_transfers, free_transfer_list,
}
use cheritest.Dma.Transfers.Correct.{
  IsList, transfers_of, list_transfers-IsList, free_transfer_list-IsList,
}
use cheritest.Dma.Output.{Token, print_test_information}
use cheritest.Dma.Output.Bytes.{Passes, assigned}
use cheritest.Dma.Output.Correct.{move}
use cheritest.Dma.Output.Shape.{IsTest}
use cheritest.Dma.Output.Whole.{Runs, print_test_information-Passes}
use cheritest.Dma.Tree.{Tree, loop, seq, op, loop_depth, dma_program_length}

grow : ℕ → Run (Tree × ℕ)
unfolding structure random_dma_program_structure build_loop start round fill_op fill_loop fill_seq
    choose ◌*ℤ◌ read_tree myrand next_state draw mysrand
grow = structure

abbrev leaf_loop : Tree
leaf_loop = loop op

-- What seed 3 grows.
abbrev tree_3 : Tree
tree_3 = seq (seq (seq leaf_loop op) leaf_loop) (seq leaf_loop (seq op op))

structure_3 : structure 3 ≡ ok (tree_3, 15692794717288361261)
unfolding grow
structure_3 = refl

-- What seed 4501 grows: five loops inside one another.
abbrev tree_4501 : Tree
tree_4501 = loop (loop (seq (loop (loop (loop (seq op op)))) op))

structure_4501 : structure 4501 ≡ ok (tree_4501, 14067191641025058323)
unfolding grow
structure_4501 = refl

-- An assembler that packs an instruction's class and its two operands into one number.
abbrev packed : DmaAsm
packed = record {
  dma_op_set = λ r n. 0x10000 + r * 0x100 + n;
  dma_op_loop = λ r n. 0x20000 + r * 0x100 + n;
  dma_op_transfer = λ s. 0x30000 + s;
  dma_op_add = λ t a. 0x40000 + t * 0x1000 + a;
  dma_op_stop = 0x50000;
}

structure-Represents_example :
    (b : Build) × (t : Tree) × (random_dma_program_structure 3 ≡ ok b) × Represents b t
structure-Represents_example = structure-Represents 3

structure-Released_example :
    (b : Build) × (live : Live) × (random_dma_program_structure 4501 ≡ ok b)
    × (free_dma_program_structure b.store 25 0 (λ q. ltb q b.store.used) ≡ ok live)
    × ((q : ℕ) → live q ≡ false)
structure-Released_example = structure-Released 4501

generate-IsProgram_example :
    (p : Program) × (generate_random_dma_program packed 3 ≡ ok p) × IsProgram packed tree_3 p
unfolding loop_depth
generate-IsProgram_example =
    generate-IsProgram packed 3 tree_3 15692794717288361261 structure_3 (omega arith)

-- The assertion fails for seed 4501.
generate_deep_example : generate_random_dma_program packed 4501 ≡ fault
unfolding loop_depth
generate_deep_example =
    generate_deep packed 4501 tree_4501 14067191641025058323 structure_4501 (omega arith)

abbrev zero_state : ℕ
zero_state = 16491480823694337667

-- From a state that makes two zeros: no third follows.
draw_zeros_example : draw (next_state (next_state (next_state zero_state))) ≢ 0
unfolding draw next_state
draw_zeros_example = draw_zeros zero_state refl refl

-- A machine that makes one transfer of four bytes, and stops at the second instruction.
abbrev machine : Execute
machine th = elim th.dmat_program_counter [
  | zero ↦ (
    record th { dmat_program_counter = 1 },
    record { source = th.dmat_source; destination = th.dmat_destination; size = 2 } ∷ [],
  )
  | suc pc ↦ (record th { dmat_state = dmam_stopped }, [])
]

machine_single : (th : Thread) → length (machine th).1 ≤ 1
machine_single th = ground arith

abbrev transfers : List Transfer
transfers = record { source = 0; destination = 0; size = 2 } ∷ []

abbrev empty : Heap
empty = record { used = 0; cell = λ p. record { item = none; next = null }; live = λ q. false }

list_transfers-IsList_example :
    (l : Link) × (h' : Heap) × (list_transfers machine 3 0 empty ≡ ok (l, h'))
    × IsList transfers empty l h'
unfolding transfers_of
list_transfers-IsList_example =
    list_transfers-IsList machine machine_single 3 0 empty transfers refl

-- The heap that the list is built in, and its release.
abbrev one_cell : Heap
one_cell = record {
  used = 2;
  cell = λ p. elim p [
    | zero ↦ record { item = none; next = to 1 }
    | suc q ↦ record { item = some (record { source = 0; destination = 0; size = 2 }); next = null }
  ];
  live = λ q. q == 1;
}

one_cell-IsList : IsList transfers empty (to 1) one_cell
one_cell-IsList = record {
  head = refl;
  chain = (refl, refl, refl);
  used = refl;
  live = λ q. ground arith;
}

free_transfer_list-IsList_example :
    (h'' : Heap) × (free_transfer_list 2 (to 1) one_cell ≡ ok h'')
    × ((q : ℕ) → h''.live q ≡ (if leb 0 q && ltb q 2 then false else false))
free_transfer_list-IsList_example =
    free_transfer_list-IsList empty one_cell (to 1) transfers one_cell-IsList

-- The engine that ignores its program, as one that runs it.
machine-Runs : Runs machine 30 0 transfers
unfolding transfers_of
machine-Runs = record {
  single = machine_single;
  transfers = refl;
  short = omega arith;
  ascending = (omega arith, omega arith, omega arith, omega arith, tt);
}

print_test_information-Passes_example :
    (tokens : List Token) × (p : Program) × (words : List ℕ) × (print_test_information packed
        (λ p. machine)
        30
        0
        empty
        3
      ≡ ok tokens)
    × (generate_random_dma_program packed 3 ≡ ok p)
    × Holds p words
    × IsTest 0x50000 words transfers tokens
    × Passes (move transfers (assigned tokens (λ a. 7)) (λ a. 9)) tokens
unfolding loop_depth dma_program_length
print_test_information-Passes_example =
    print_test_information-Passes packed (λ p. machine) 30 0 empty 3 tree_3 15692794717288361261
      transfers (λ a. 7) (λ a. 9) structure_3 (omega arith) (omega arith) (omega arith)
      (λ p e. machine-Runs)
