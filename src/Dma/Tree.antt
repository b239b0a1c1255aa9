-- ===== src/Dma/Tree.antt =====
-- fuzz_dma/dma_test_generation.c: a finished program structure as a tree, and the recursions over
-- it that only read it.
use cheritest.Common.{ℕ, ◌+◌, List, [], ◌∷◌}
use Prim.Native.Nat.{max}

pub data Tree : Type 0 where
  loop : Tree → Tree
  seq : Tree → Tree → Tree
  op : Tree

unfoldable pub dma_program_length : Tree → ℕ
dma_program_length (loop body) = 2 + dma_program_length body
dma_program_length (seq left right) = dma_program_length left + dma_program_length right
dma_program_length op = 1

-- How deep loops nest.
unfoldable pub loop_depth : Tree → ℕ
loop_depth (loop body) = 1 + loop_depth body
loop_depth (seq left right) = max (loop_depth left) (loop_depth right)
loop_depth op = 0

unfoldable pub total_length : List Tree → ℕ
total_length [] = 0
total_length (t ∷ ts) = dma_program_length t + total_length ts
