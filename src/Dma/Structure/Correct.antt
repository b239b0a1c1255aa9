-- ===== src/Dma/Structure/Correct.antt =====
-- What `random_dma_program_structure` returns, for every seed.
use cheritest.Common.{
  ℕ, ◌+◌, ◌≤◌, ◌<◌, ◌≡◌, refl, ◌∙◌, List, [], ◌∷◌, length, none, ok, arith, ltb, if◌then◌else◌,
}
use cheritest.Dma.Structure.{Build, start, build_fuel, random_dma_program_structure}
use cheritest.Dma.Structure.Bound.{rounds_left}
use cheritest.Dma.Structure.Count.{occurrences, all_occurrences}
use cheritest.Dma.Structure.Forest.{Stands, Forest}
use cheritest.Dma.Structure.Grow.{build_loop-Grown}
use cheritest.Dma.Structure.Round.{State}
use cheritest.Dma.Tree.{Tree, dma_program_length, total_length}

start-State : (seed : ℕ) → State 0 (start seed)
unfolding start
start-State seed = record {
  queue = record {
    used = refl;
    last = λ h. refl;
    links = λ j h k. absurd (omega arith);
    end = λ h. refl;
  };
  head = λ h. refl;
  unset = λ h. absurd (omega (arith, h));
  bounded = record {
    short = λ h. omega arith;
    at_limit = λ h. absurd (omega arith);
    past = λ h. absurd (omega arith);
  };
}

-- The root of the store stands for the tree, the function counted its length right, the length is
-- at most 25, each node that was allocated is in the tree once, and the value that the variable
-- next_space is left with was never written.
pub record Represents (b : Build) (t : Tree) : Type 0 where
  pub stands : Stands b.store 0 t
  pub counted : dma_program_length t ≡ b.program_length
  pub short : dma_program_length t ≤ 25
  pub once : (q : ℕ) → occurrences b.store q t 0 ≡ (if ltb q b.store.used then 1 else 0)
  pub unset : b.next_space ≡ none

-- For every seed the function returns within 51 rounds, and no round stores through a next_space
-- that was never set. The value that is left in next_space at the end is one that was never
-- written. The root of what it returns is a finite tree whose length is the one that it counted, at
-- most 25, so that the array of 26 lengths in the test code is long enough. Each node that it
-- allocated is in that tree exactly once: none is lost and none is shared.
pub structure-Represents :
    (seed : ℕ)
    → (b : Build) × (t : Tree) × (random_dma_program_structure seed ≡ ok b) × Represents b t
unfolding random_dma_program_structure
structure-Represents seed =
    let g = build_loop-Grown build_fuel 0 (start seed) (start-State seed) (fits seed) in
    first g.final g.runs g.unset g.trees (g.count ∙ one_space seed) g.forest g.total g.bound
      (λ q. ground (arith, g.once q))
  where
    fits :
        (seed : ℕ)
        → rounds_left (start seed).program_length (start seed).spaces (start seed).next < build_fuel
    fits seed = unfold start rounds_left in omega arith

    one_space : (seed : ℕ) → (start seed).spaces ≡ 1
    one_space seed = unfold start in refl

    first :
        (b : Build)
        → random_dma_program_structure seed ≡ ok b
        → b.next_space ≡ none
        → (ts : List Tree) → length ts ≡ 1
        → Forest b.store 0 ts
        → total_length ts + (start seed).program_length ≡ b.program_length
        → b.program_length ≤ 25
        → ((q : ℕ) → all_occurrences b.store q 0 ts ≡ (if ltb q b.store.used then 1 else 0))
        → (b : Build) × (t : Tree) × (random_dma_program_structure seed ≡ ok b) × Represents b t
    first b runs unset [] one f total bound once = absurd (omega arith)
    first b runs unset (t ∷ []) one f total bound once =
        let counted : dma_program_length t ≡ b.program_length =
          unfold start total_length in omega arith in
        (
          b,
          t,
          runs,
          record {
            stands = f.0;
            counted = counted;
            short = omega arith;
            once = λ q. ground (arith, once q);
            unset = unset;
          },
        )
    first b runs unset (t ∷ u ∷ ts) one f total bound once = absurd (omega arith)
