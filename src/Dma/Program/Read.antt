-- ===== src/Dma/Program/Read.antt =====
-- Reading a structure back as a tree.
use Prim.Native.Nat.{max}
use cheritest.Common.{ℕ, zero, suc, ◌+◌, ◌≤◌, ◌≡◌, ok, arith}
use cheritest.Dma.Program.{read_tree}
use cheritest.Dma.Structure.{Store}
use cheritest.Dma.Structure.Forest.{Stands}
use cheritest.Dma.Tree.{Tree, loop, seq, op, dma_program_length}

height : Tree → ℕ
height (loop body) = height body + 1
height (seq left right) = max (height left) (height right) + 1
height op = 1

dma_program_length_pos : (t : Tree) → 1 ≤ dma_program_length t
unfolding dma_program_length
dma_program_length_pos (loop body) = omega arith
dma_program_length_pos (seq left right) = omega (arith, dma_program_length_pos left)
dma_program_length_pos op = omega arith

height-le : (t : Tree) → height t ≤ dma_program_length t
unfolding dma_program_length height
height-le (loop body) = omega (arith, height-le body)
height-le (seq left right) = omega (
  arith,
  height-le left,
  height-le right,
  dma_program_length_pos left,
  dma_program_length_pos right,
)
height-le op = omega arith

read_height :
    (st : Store) (t : Tree) (depth p : ℕ)
    → Stands st p t
    → height t ≤ depth
    → read_tree depth st p ≡ ok t
unfolding read_tree height
read_height st (loop body) zero p s h = absurd (omega arith)
read_height st (loop body) (suc depth) p (kind, (l, at_left, below)) h =
    rw (kind, at_left, read_height st body depth l below (omega arith))
read_height st (seq left right) zero p s h = absurd (omega arith)
read_height st (seq left right) (suc depth) p (kind, (l, at_left, s), (r, at_right, s')) h = rw (
  kind,
  at_left,
  read_height st left depth l s (omega arith),
  at_right,
  read_height st right depth r s' (omega arith),
)
read_height st op zero p s h = absurd (omega arith)
read_height st op (suc depth) p kind h = rw kind

-- A tree that the store stands for is what is read, if it is no longer than the depth.
pub read_tree_lem :
    (st : Store) (t : Tree) (depth p : ℕ)
    → Stands st p t
    → dma_program_length t ≤ depth
    → read_tree depth st p ≡ ok t
read_tree_lem st t depth p s h = read_height st t depth p s (omega (arith, height-le t))
