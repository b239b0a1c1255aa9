-- ===== src/Dma/Structure/Queue.antt =====
-- The queue of spaces: in every state of the loop the unfilled nodes are the last ones allocated,
-- linked in the order of their allocation.
use cheritest.Common.{ℕ, suc, ◌+◌, ◌≤◌, ◌<◌, ◌≡◌, none, some, arith}
use cheritest.Dma.Structure.{Build, fill_op, fill_loop, fill_seq}

-- The nodes below `i` are filled and those from `i` on are not.
pub record Queue (i : ℕ) (b : Build) : Type 0 where
  pub used : b.store.used ≡ i + b.spaces
  pub last : 0 < b.spaces → suc b.last_space ≡ b.store.used
  pub links :
      (j : ℕ) → i ≤ j → suc j < b.store.used → (b.store.node j).dmapn_next_space ≡ some (suc j)
  pub end : 0 < b.spaces → (b.store.node b.last_space).dmapn_next_space ≡ none

-- The state once node `i` is filled and before the queue's head moves on.
pub record Filled (i : ℕ) (b : Build) : Type 0 where
  pub used : b.store.used ≡ suc i + b.spaces
  pub last : suc b.last_space ≡ b.store.used
  pub links :
      (j : ℕ) → i ≤ j → suc j < b.store.used → (b.store.node j).dmapn_next_space ≡ some (suc j)
  pub end : (b.store.node b.last_space).dmapn_next_space ≡ none

module _ (i : ℕ) (b : Build) (q : Queue i b) (some_left : 0 < b.spaces) where
  pub fill_op-Filled : Filled i (fill_op i b)
  unfolding fill_op
  fill_op-Filled = record {
    used = omega arith;
    last = q.last some_left;
    links = λ j h k. ground (arith, q.links j);
    end = ground arith;
  }

  pub fill_loop-Filled : Filled i (fill_loop i b)
  unfolding fill_loop
  fill_loop-Filled = record {
    used = omega arith;
    last = omega arith;
    links = λ j h k. ground (arith, q.links j, q.last some_left);
    end = ground (arith, q.last some_left);
  }

  pub fill_seq-Filled : Filled i (fill_seq i b)
  unfolding fill_seq
  fill_seq-Filled = record {
    used = omega arith;
    last = omega arith;
    links = λ j h k. ground (arith, q.links j, q.last some_left);
    end = ground (arith, q.last some_left);
  }
