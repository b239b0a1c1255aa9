-- ===== src/Dma/Structure/Grow.antt =====
-- The loop of `random_dma_program_structure` ends, and its store then holds one tree.
use cheritest.Common.{
  ℕ, zero, suc, ◌+◌, ◌-◌, ◌≤◌, ◌<◌, ◌≡◌, refl, ap, ◌&&◌, true, false, none, leb, ltb, if◌then◌else◌,
  Run, ok, List, [], ◌∷◌, length, arith, Bool-cases, inl, inr,
}
use cheritest.Dma.Rand.{draw, next_state}
use cheritest.Dma.Structure.{
  NodeType, dmapnt_loop, dmapnt_seq, dmapnt_op, Store, Build, choose, fill_op, fill_loop, fill_seq,
  round, build_loop,
}
use cheritest.Dma.Structure.Bound.{rounds_left}
use cheritest.Dma.Structure.Forest.{Forest, Forest-append, total_length-append, split_last}
use cheritest.Dma.Structure.Count.{
  all_occurrences, all_occurrences-append, occurrences-loop, occurrences-seq,
}
use cheritest.Dma.Structure.Queue.{Queue}
use cheritest.Dma.Tree.{Tree, loop, seq, op, dma_program_length, total_length}
use cheritest.Dma.Structure.Round.{after, State, round_lem, after-State}

-- What a node is, its place in the queue aside.
abbrev Kept : Store → Store → ℕ → Type 0
Kept st fs j =
    ((fs.node j).dmapn_type ≡ (st.node j).dmapn_type)
    × ((fs.node j).dmapn_left_child ≡ (st.node j).dmapn_left_child)
    × ((fs.node j).dmapn_right_child ≡ (st.node j).dmapn_right_child)

-- What the loop achieves from a state with `i` nodes filled: its final store holds a tree for each
-- node that was in the queue, and each node from `i` on is in one of them once.
pub record Grown (i : ℕ) (b : Build) (r : Run Build) : Type 0 where
  pub final : Build
  pub runs : r ≡ ok final
  pub trees : List Tree
  pub count : length trees ≡ b.spaces
  pub forest : Forest final.store i trees
  pub unset : final.next_space ≡ none
  pub total : total_length trees + b.program_length ≡ final.program_length
  pub kept : (j : ℕ) → j < i → Kept b.store final.store j
  pub bound : final.program_length ≤ 25
  pub grew : b.store.used ≤ final.store.used
  pub once :
      (n : ℕ)
      → all_occurrences final.store n i trees ≡ (if leb i n && ltb n final.store.used then 1 else 0)

-- A node that is filled before the round is as it was.
Kept-after :
    (k : NodeType) (i : ℕ) (b : Build) (j : ℕ)
    → j < i
    → i < b.store.used
    → Kept b.store (after k i b).store j
unfolding fill_op fill_loop fill_seq
Kept-after dmapnt_op i b j h u = ground arith
Kept-after dmapnt_loop i b j h u = ground arith
Kept-after dmapnt_seq i b j h u = ground arith

module _ (i : ℕ) (b : Build) (some_left : 0 < b.spaces) (q : Queue i b) where
  Grown-op : {r : Run Build} → Grown (suc i) (after dmapnt_op i b) r → Grown i b r
  unfolding fill_op total_length dma_program_length
  Grown-op g = record {
    final = g.final;
    runs = g.runs;
    trees = op ∷ g.trees;
    count = omega (arith, g.count);
    forest = (ground (arith, g.kept i), g.forest);
    unset = g.unset;
    total = omega (arith, g.total);
    kept = λ j h. ground (arith, g.kept j, Kept-after dmapnt_op i b j);
    bound = g.bound;
    grew = g.grew;
    once = λ n. ground (arith, g.once n, g.grew, q.used);
  }

  Grown-loop : {r : Run Build} → Grown (suc i) (after dmapnt_loop i b) r → Grown i b r
  unfolding fill_loop total_length dma_program_length
  Grown-loop g =
      let (front, body, parts, count) =
        split_last g.trees (b.spaces - 1) (omega (arith, g.count)) in
      let (rest, hung_on) =
        Forest-append g.final.store (suc i) b.store.used front (body ∷ []) (omega (arith, q.used))
          (rw parts at g.forest) in
      record {
        final = g.final;
        runs = g.runs;
        trees = loop body ∷ front;
        count = omega arith;
        forest =
            ((ground (arith, g.kept i), (b.store.used, ground (arith, g.kept i), hung_on.0)), rest);
        unset = g.unset;
        total =
            omega (
              arith,
              g.total,
              ap (λ l. total_length l) parts,
              total_length-append front (body ∷ []),
            );
        kept = λ j h. ground (arith, g.kept j, Kept-after dmapnt_loop i b j);
        bound = g.bound;
        grew = omega (arith, g.grew);
        once = λ n. ground (
          arith,
          g.once n,
          g.grew,
          q.used,
          occurrences-loop g.final.store n body i b.store.used (ground (arith, g.kept i)),
          ap (λ l. all_occurrences g.final.store n (suc i) l) parts,
          all_occurrences-append g.final.store n (suc i) b.store.used front (body ∷ [])
              (omega (arith, q.used)),
        );
      }

  Grown-seq : {r : Run Build} → Grown (suc i) (after dmapnt_seq i b) r → Grown i b r
  unfolding fill_seq total_length dma_program_length
  Grown-seq g =
      let (most, right, parts, count) = split_last g.trees b.spaces (omega (arith, g.count)) in
      let (front, left, parts', count') = split_last most (b.spaces - 1) (omega arith) in
      let (rest', right_there) =
        Forest-append g.final.store (suc i) (b.store.used + 1) most (right ∷ [])
          (omega (arith, q.used)) (rw parts at g.forest) in
      let (rest, left_there) =
        Forest-append g.final.store (suc i) b.store.used front (left ∷ []) (omega (arith, q.used))
          (rw parts' at rest') in
      record {
        final = g.final;
        runs = g.runs;
        trees = seq left right ∷ front;
        count = omega arith;
        forest = (
          (
            ground (arith, g.kept i),
            (b.store.used, ground (arith, g.kept i), left_there.0),
            (b.store.used + 1, ground (arith, g.kept i), right_there.0),
          ),
          rest,
        );
        unset = g.unset;
        total = omega (
          arith,
          g.total,
          ap (λ l. total_length l) parts,
          ap (λ l. total_length l) parts',
          total_length-append most (right ∷ []),
          total_length-append front (left ∷ []),
        );
        kept = λ j h. ground (arith, g.kept j, Kept-after dmapnt_seq i b j);
        bound = g.bound;
        grew = omega (arith, g.grew);
        once = λ n. ground (
          arith,
          g.once n,
          g.grew,
          q.used,
          occurrences-seq g.final.store n left right i b.store.used (b.store.used + 1)
              (ground (arith, g.kept i)) (ground (arith, g.kept i)),
          ap (λ l. all_occurrences g.final.store n (suc i) l) parts,
          ap (λ l. all_occurrences g.final.store n (suc i) l) parts',
          all_occurrences-append g.final.store n (suc i) (b.store.used + 1) most (right ∷ [])
              (omega (arith, q.used)),
          all_occurrences-append g.final.store n (suc i) b.store.used front (left ∷ [])
              (omega (arith, q.used)),
        );
      }

  Grown-back : (k : NodeType) {r : Run Build} → Grown (suc i) (after k i b) r → Grown i b r
  Grown-back dmapnt_op g = Grown-op g
  Grown-back dmapnt_loop g = Grown-loop g
  Grown-back dmapnt_seq g = Grown-seq g

build_loop_stops : (fuel : ℕ) (b : Build) → ltb 0 b.spaces ≡ false → build_loop (suc fuel) b ≡ ok b
unfolding build_loop
build_loop_stops fuel b e = ground arith

build_loop_goes :
    (fuel : ℕ) (b c : Build)
    → ltb 0 b.spaces ≡ true
    → round b ≡ ok c
    → build_loop (suc fuel) b ≡ build_loop fuel c
unfolding build_loop
build_loop_goes fuel b c e r = rw (e, r, build_loop)

pub build_loop-Grown :
    (fuel i : ℕ) (b : Build)
    → State i b
    → rounds_left b.program_length b.spaces b.next < fuel
    → Grown i b (build_loop fuel b)
unfolding total_length
build_loop-Grown zero i b s room = absurd (omega arith)
build_loop-Grown (suc fuel) i b s room = elim (Bool-cases (ltb 0 b.spaces)) [
  | inr empty ↦ rw (build_loop_stops fuel b empty) (record {
    final = b;
    runs = refl;
    trees = [];
    count = ground arith;
    forest = tt;
    unset = s.unset (ground arith);
    total = omega arith;
    kept = λ j h. (refl, refl, refl);
    bound = ground (arith, s.bounded.past);
    grew = omega arith;
    once = λ n. ground (arith, s.queue.used);
  })
  | inl more ↦
      let k = choose b.program_length b.spaces (draw (next_state b.next)) in
      let some_left : 0 < b.spaces = ground arith in
      let (s', falls) = after-State k i b refl some_left s in
      rw (build_loop_goes fuel b (after k i b) more (round_lem i b (s.head some_left))) (
        Grown-back i b some_left s.queue k
          (build_loop-Grown fuel (suc i) (after k i b) s' (omega arith)))
]
