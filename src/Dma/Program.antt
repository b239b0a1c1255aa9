-- ===== src/Dma/Program.antt =====
-- fuzz_dma/dma_test_generation.c: `write_random_dma_program` and `generate_random_dma_program`.
pub mod Read
pub mod Correct
pub mod Encodes
use cheritest.Common.{
  ℕ, zero, suc, ◌+◌, ◌-◌, ◌*◌, ◌%◌, ◌^◌, Bool, true, false, Option, none, some, ◌==◌, ltb, leb,
  if◌then◌else◌, Run, ok, fault, hung, ◌>>=◌,
}
use cheritest.Dma.Rand.{myrand}
use cheritest.Dma.Structure.{
  NodeType, dmapnt_loop, dmapnt_seq, dmapnt_op, Node, Store, Build, random_dma_program_structure,
}
use cheritest.Dma.Structure.Free.{free_dma_program_structure}
use cheritest.Dma.Tree.{Tree, loop, seq, op, dma_program_length}

-- The macros of DMAAsm.h, which is not part of the repository: an instruction is a 32-bit word.
pub record DmaAsm : Type 0 where
  pub dma_op_set : (reg count : ℕ) → ℕ
  pub dma_op_loop : (reg body_length : ℕ) → ℕ
  pub dma_op_transfer : (size : ℕ) → ℕ
  pub dma_op_add : (target amount : ℕ) → ℕ
  pub dma_op_stop : ℕ

-- The structure as the recursions see it, `depth` bounding how far they go down. A field that was
-- never set is a fault.
child : (ℕ → Run Tree) → Option ℕ → Run Tree
child follow none = fault
child follow (some p) = follow p

node_tree : (ℕ → Run Tree) → Node → Option NodeType → Run Tree
node_tree follow n none = fault
node_tree follow n (some dmapnt_op) = ok op
node_tree follow n (some dmapnt_loop) = child follow n.dmapn_left_child >>= λ body. ok (loop body)
node_tree follow n (some dmapnt_seq) = child follow n.dmapn_left_child >>= λ left.
    child follow n.dmapn_right_child >>= λ right. ok (seq left right)

unfoldable pub read_tree : (depth : ℕ) → Store → ℕ → Run Tree
unfolding child node_tree
read_tree zero st p = hung
read_tree (suc depth) st p = node_tree (read_tree depth st) (st.node p) (st.node p).dmapn_type

-- The array from malloc, where `none` is a word not written yet, with `*next_pp` as an index and
-- the generator's `next`.
pub record Writer : Type 0 where
  pub next : ℕ
  pub size : ℕ
  pub cell : ℕ → Option ℕ
  pub at : ℕ

-- `**next_pp = x; ++(*next_pp)`: a write past the end of the array is a fault.
unfoldable pub emit : ℕ → Writer → Run Writer
emit x w =
    if ltb w.at w.size
    then ok (record w { cell = λ i. if w.at == i then some x else w.cell i; at = w.at + 1 })
    else fault

-- `myrand()` as an expression.
abbrev pub rolled : (ℕ → Writer → Run Writer) → Writer → Run Writer
rolled k w = let (p, next) = myrand w.next in k p (record w { next = next })

module _ (asm : DmaAsm) (ts : ℕ) where
  -- A leaf: a transfer, or an addition to one of the addresses or to both.
  unfoldable pub write_op : Writer → Run Writer
  write_op = rolled λ p.
      if p % 2 == 0
      then emit (asm.dma_op_transfer ts)
      else rolled
          λ target. rolled λ amount. emit (asm.dma_op_add (target % 3) (2 ^ ts * (amount % 20)))

  -- `assert(loop_level <= 4)` stops the program, a fault here.
  unfoldable pub write_random_dma_program : Tree → (loop_level : ℕ) → Writer → Run Writer
  unfolding write_op
  write_random_dma_program (loop body) level w =
      if leb level 4
      then (rolled (λ count. emit (asm.dma_op_set level (1 + count % 5))) w
          >>= write_random_dma_program body (level + 1)
          >>= emit (asm.dma_op_loop level (dma_program_length body)))
      else fault
  write_random_dma_program (seq left right) level w =
      if leb level 4
      then write_random_dma_program left level w >>= write_random_dma_program right level
      else fault
  write_random_dma_program op level w = if leb level 4 then write_op w else fault

-- The finished array and its length.
pub record Program : Type 0 where
  pub size : ℕ
  pub cell : ℕ → Option ℕ

unfoldable pub finish : Writer → Program
finish w = record { size = w.size; cell = w.cell }

-- The structure that the seed leads to, with the state of the generator after it. A tree is no
-- deeper than it is long.
unfoldable pub structure : (seed : ℕ) → Run (Tree × ℕ)
structure seed =
    random_dma_program_structure seed >>= λ b. read_tree 26 b.store 0 >>= λ t. ok (t, b.next)

-- One more word is allocated for the stop, and the structure is released at the end. `malloc` is
-- taken to succeed.
unfoldable pub generate_random_dma_program : DmaAsm → (seed : ℕ) → Run Program
generate_random_dma_program asm seed = random_dma_program_structure seed >>= λ b.
    read_tree 26 b.store 0 >>= λ t.
    rolled (λ ts w. write_random_dma_program asm (ts % 6) t 0 w)
      (record { next = b.next; size = dma_program_length t + 1; cell = λ i. none; at = 0 })
    >>= emit asm.dma_op_stop
    >>= λ w.
        free_dma_program_structure b.store 25 0 (λ q. ltb q b.store.used) >>= λ live. ok (finish w)
