-- ===== src/Dma/Structure/Round.antt =====
-- One round of the loop of `random_dma_program_structure`.
use cheritest.Common.{ℕ, suc, ◌<◌, ◌≡◌, ap, ◌∙◌, none, some, ok, arith}
use cheritest.Dma.Rand.{draw, next_state, myrand}
use cheritest.Dma.Structure.{
  NodeType, dmapnt_loop, dmapnt_seq, dmapnt_op, Build, choose, fill, fill_op, fill_loop, fill_seq,
  round,
}
use cheritest.Dma.Structure.Bound.{Bounded, rounds_left, round_falls}
use cheritest.Dma.Structure.Queue.{Queue, Filled, fill_op-Filled, fill_loop-Filled, fill_seq-Filled}

-- The state after a round that fills node `i` as `k`.
abbrev pub after : (k : NodeType) (i : ℕ) → Build → Build
after k i b =
    let b' = fill k i (record b { next = next_state b.next }) in
    record b' { next_space = (b'.store.node i).dmapn_next_space }

-- A state of the loop, with `i` nodes filled.
pub record State (i : ℕ) (b : Build) : Type 0 where
  pub queue : Queue i b
  pub head : 0 < b.spaces → b.next_space ≡ some i
  pub unset : b.spaces ≡ 0 → b.next_space ≡ none
  pub bounded : Bounded b.program_length b.spaces b.next

pub round_lem :
    (i : ℕ) (b : Build)
    → b.next_space ≡ some i
    → round b ≡ ok (after (choose b.program_length b.spaces (draw (next_state b.next))) i b)
unfolding round myrand
round_lem i b e = rw e

Filled-Queue :
    (k : NodeType) (i : ℕ) (b : Build)
    → Queue i b
    → 0 < b.spaces
    → Filled i (fill k i (record b { next = next_state b.next }))
Filled-Queue k i b q some_left = go k
  where
    q' : Queue i (record b { next = next_state b.next })
    q' = record { used = q.used; last = q.last; links = q.links; end = q.end }

    go : (k : NodeType) → Filled i (fill k i (record b { next = next_state b.next }))
    go dmapnt_op = fill_op-Filled i _ q' some_left
    go dmapnt_loop = fill_loop-Filled i _ q' some_left
    go dmapnt_seq = fill_seq-Filled i _ q' some_left

Filled-State :
    (i : ℕ) (b : Build)
    → Filled i b
    → Bounded b.program_length b.spaces b.next
    → State (suc i) (record b { next_space = (b.store.node i).dmapn_next_space })
Filled-State i b f bounded = record {
  queue = record {
    used = f.used;
    last = λ h. f.last;
    links = λ j h k. f.links j (omega arith) k;
    end = λ h. f.end;
  };
  head = λ h. f.links i (omega arith) (omega (arith, f.used));
  unset = λ e.
      ap (λ n. (b.store.node n).dmapn_next_space) {x = i} {y = b.last_space}
        (omega (arith, e, f.used, f.last))
      ∙ f.end;
  bounded = bounded;
}

abbrev pub Steps : (k : NodeType) (i : ℕ) → Build → Type 0
Steps k i b =
    let c = after k i b in
    State (suc i) c
    × (rounds_left c.program_length c.spaces c.next < rounds_left b.program_length b.spaces b.next)

pub after-State :
    (k : NodeType) (i : ℕ) (b : Build)
    → choose b.program_length b.spaces (draw (next_state b.next)) ≡ k
    → 0 < b.spaces
    → State i b
    → Steps k i b
unfolding fill_op fill_loop fill_seq
after-State dmapnt_op i b e some_left s =
    let (bounded, falls) = round_falls _ _ _ dmapnt_op e some_left s.bounded in
    (Filled-State i _ (Filled-Queue dmapnt_op i b s.queue some_left) bounded, falls)
after-State dmapnt_loop i b e some_left s =
    let (bounded, falls) = round_falls _ _ _ dmapnt_loop e some_left s.bounded in
    (Filled-State i _ (Filled-Queue dmapnt_loop i b s.queue some_left) bounded, falls)
after-State dmapnt_seq i b e some_left s =
    let (bounded, falls) = round_falls _ _ _ dmapnt_seq e some_left s.bounded in
    (Filled-State i _ (Filled-Queue dmapnt_seq i b s.queue some_left) bounded, falls)
