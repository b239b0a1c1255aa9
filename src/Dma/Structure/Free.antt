-- ===== src/Dma/Structure/Free.antt =====
-- fuzz_dma/dma_test_generation.c: `free_dma_program_structure`.
use cheritest.Common.{
  ℕ, zero, suc, Bool, false, Option, none, some, ◌==◌, if◌then◌else◌, Run, ok, fault, hung, ◌>>=◌,
}
use cheritest.Dma.Structure.{dmapnt_loop, dmapnt_seq, dmapnt_op, Node, Store}

-- The nodes that malloc gave out and that were not freed since.
abbrev pub Live : Type 0
Live = ℕ → Bool

-- A field that was never written is not read.
abbrev pub field {ℓ} : {A : Type ℓ} → Option A → Run A
field none = fault
field (some a) = ok a

-- A read through a pointer to a node, which no one freed.
abbrev pub deref : Store → Live → ℕ → Run Node
deref st live p = if live p then ok (st.node p) else fault

abbrev pub free : ℕ → Live → Run Live
free p live = if live p then ok (λ q. if p == q then false else live q) else fault

module _ (st : Store) where
  unfoldable pub free_dma_program_structure : (fuel program : ℕ) → Live → Run Live
  free_dma_program_structure zero program live = hung
  free_dma_program_structure (suc fuel) program live = deref st live program >>= λ n.
      field n.dmapn_type >>= λ k. elim k [
        | dmapnt_loop ↦ field n.dmapn_left_child >>= λ l.
            free_dma_program_structure fuel l live >>= λ live'. free program live'
        | dmapnt_seq ↦ field n.dmapn_left_child >>= λ l.
            free_dma_program_structure fuel l live >>= λ live'. deref st live' program >>= λ n'.
            field n'.dmapn_right_child >>= λ r.
            free_dma_program_structure fuel r live' >>= λ live''. free program live''
        | dmapnt_op ↦ free program live
      ]
