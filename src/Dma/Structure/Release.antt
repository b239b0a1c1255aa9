-- ===== src/Dma/Structure/Release.antt =====
-- The release of a program structure frees each of its nodes once and reads none that is freed.
use cheritest.Common.{
  ℕ, zero, suc, ◌+◌, ◌≤◌, ◌<◌, ◌≡◌, refl, Bool, true, false, some, ltb, ◌==◌, if◌then◌else◌, Run,
  ok, arith,
}
use cheritest.Dma.Structure.{dmapnt_loop, dmapnt_seq, Store, Build, random_dma_program_structure}
use cheritest.Dma.Structure.Correct.{Represents, structure-Represents}
use cheritest.Dma.Structure.Count.{occurrences, occurrences-loop, occurrences-seq, one}
use cheritest.Dma.Structure.Forest.{Stands}
use cheritest.Dma.Structure.Free.{Live, free, free_dma_program_structure}
use cheritest.Dma.Tree.{Tree, loop, seq, op, dma_program_length}

abbrev bit : Bool → ℕ
bit b = if b then 1 else 0

-- The run frees the nodes as often as `count` says, which is once each at most.
abbrev Frees : (count : ℕ → ℕ) → Live → Run Live → Type 0
Frees count live r =
    (live' : Live) × (r ≡ ok live') × ((q : ℕ) → bit (live q) ≡ count q + bit (live' q))

free-Frees : (p : ℕ) (live : Live) → live p ≡ true → Frees (λ q. one p q) live (free p live)
free-Frees p live e = ((λ q. if p == q then false else live q), rw e refl, λ q. ground (arith, e))

positive : (t : Tree) → 0 < dma_program_length t
unfolding dma_program_length
positive op = omega arith
positive (loop body) = omega arith
positive (seq left right) = omega (arith, positive left)

module _ (st : Store) where
  loop_runs :
      (p l fuel : ℕ) (live live' : Live) (end : Run Live)
      → live p ≡ true
      → (st.node p).dmapn_type ≡ some dmapnt_loop
      → (st.node p).dmapn_left_child ≡ some l
      → free_dma_program_structure st fuel l live ≡ ok live'
      → free p live' ≡ end
      → free_dma_program_structure st (suc fuel) p live ≡ end
  unfolding free_dma_program_structure
  loop_runs p l fuel live live' end here is_loop to_l runs e = rw (here, is_loop, to_l, runs) e

  seq_runs :
      (p l r fuel : ℕ) (live live' live'' : Live) (end : Run Live)
      → live p ≡ true
      → (st.node p).dmapn_type ≡ some dmapnt_seq
      → (st.node p).dmapn_left_child ≡ some l
      → free_dma_program_structure st fuel l live ≡ ok live'
      → live' p ≡ true
      → (st.node p).dmapn_right_child ≡ some r
      → free_dma_program_structure st fuel r live' ≡ ok live''
      → free p live'' ≡ end
      → free_dma_program_structure st (suc fuel) p live ≡ end
  unfolding free_dma_program_structure
  seq_runs p l r fuel live live' live'' end here is_seq to_l runs here' to_r runs' e =
      rw (here, is_seq, to_l, runs, here', to_r, runs') e

  free_dma-Frees :
      (t : Tree) (p fuel : ℕ) (live : Live)
      → Stands st p t
      → dma_program_length t ≤ fuel
      → ((q : ℕ) → occurrences st q t p ≤ bit (live q))
      → Frees (λ q. occurrences st q t p) live (free_dma_program_structure st fuel p live)
  unfolding free_dma_program_structure dma_program_length
  free_dma-Frees t p zero live s room h = absurd (omega (arith, positive t))
  free_dma-Frees op p (suc fuel) live s room h =
      let here : live p ≡ true = ground (arith, h p) in rw (here, s) (free-Frees p live here)
  free_dma-Frees (loop body) p (suc fuel) live s room h =
      let (l, to_l, below_l) = s.1 in
      let count : (q : ℕ) → occurrences st q (loop body) p ≡ one p q + occurrences st q body l =
        λ q. occurrences-loop st q body p l to_l in
      let here : live p ≡ true = ground (arith, h p, count p) in
      let (live', runs, freed) =
        free_dma-Frees body l fuel live below_l (omega arith) (λ q. omega (arith, h q, count q)) in
      let here' : live' p ≡ true = ground (arith, freed p, h p, count p) in
      let (live'', runs', freed') = free-Frees p live' here' in
      (
        live'',
        loop_runs p l fuel live live' (ok live'') here s.0 to_l runs runs',
        λ q. omega (arith, freed q, freed' q, count q),
      )
  free_dma-Frees (seq left right) p (suc fuel) live s room h =
      let (l, to_l, below_l) = s.1 in
      let (r, to_r, below_r) = s.2 in
      let count : (q : ℕ)
          → occurrences st q (seq left right) p
            ≡ one p q + (occurrences st q left l + occurrences st q right r) =
        λ q. occurrences-seq st q left right p l r to_l to_r in
      let here : live p ≡ true = ground (arith, h p, count p) in
      let (live', runs, freed) =
        free_dma-Frees left l fuel live below_l (omega (arith, positive right))
          (λ q. omega (arith, h q, count q)) in
      let here' : live' p ≡ true = ground (arith, freed p, h p, count p) in
      let (live'', runs', freed') =
        free_dma-Frees right r fuel live' below_r (omega (arith, positive left))
          (λ q. omega (arith, h q, count q, freed q)) in
      let here'' : live'' p ≡ true = ground (arith, freed' p, freed p, h p, count p) in
      let (rest, runs'', freed'') = free-Frees p live'' here'' in
      (
        rest,
        seq_runs p l r fuel live live' live'' (ok rest) here s.0 to_l runs here' to_r runs' runs'',
        λ q. omega (arith, freed q, freed' q, freed'' q, count q),
      )

pub Represents-Released :
    (b : Build) (t : Tree)
    → Represents b t
    → (live : Live) × (free_dma_program_structure b.store 25 0 (λ q. ltb q b.store.used) ≡ ok live)
      × ((q : ℕ) → live q ≡ false)
Represents-Released b t r =
    let (live, frees, freed) =
      free_dma-Frees b.store t 0 25 (λ q. ltb q b.store.used) r.stands r.short
        (λ q. omega (arith, r.once q)) in
    (live, frees, λ q. ground (arith, freed q, r.once q))

-- For every seed, `free_dma_program_structure` takes the structure that
-- `random_dma_program_structure` returns and releases all of it. It ends within 25 nested calls,
-- reads no field that was never written and no node that it has freed, frees no node twice, and
-- leaves none of the nodes that were allocated unfreed.
pub structure-Released :
    (seed : ℕ)
    → (b : Build) × (live : Live) × (random_dma_program_structure seed ≡ ok b)
      × (free_dma_program_structure b.store 25 0 (λ q. ltb q b.store.used) ≡ ok live)
      × ((q : ℕ) → live q ≡ false)
structure-Released seed =
    let (b, t, runs, r) = structure-Represents seed in
    let (live, frees, freed) = Represents-Released b t r in (b, live, runs, frees, freed)
