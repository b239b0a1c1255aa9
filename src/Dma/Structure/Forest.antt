-- ===== src/Dma/Structure/Forest.antt =====
-- The trees that the nodes of a store stand for.
use cheritest.Common.{ℕ, suc, ◌+◌, ◌-◌, ◌≡◌, refl, ap, some, List, [], ◌∷◌, ◌++◌, arith, length}
use mathlib.Core.Path.{subst}
use cheritest.Dma.Structure.{dmapnt_loop, dmapnt_seq, dmapnt_op, Store}
use cheritest.Dma.Tree.{Tree, loop, seq, op, total_length}

-- Node `p` and what hangs below it are the tree.
abbrev pub Stands : Store → ℕ → Tree → Type 0
Stands st p op = (st.node p).dmapn_type ≡ some dmapnt_op
Stands st p (loop body) =
    ((st.node p).dmapn_type ≡ some dmapnt_loop)
    × ((l : ℕ) × ((st.node p).dmapn_left_child ≡ some l) × Stands st l body)
Stands st p (seq left right) =
    ((st.node p).dmapn_type ≡ some dmapnt_seq)
    × ((l : ℕ) × ((st.node p).dmapn_left_child ≡ some l) × Stands st l left)
    × ((r : ℕ) × ((st.node p).dmapn_right_child ≡ some r) × Stands st r right)

-- The nodes from `p` on are the trees, in order.
abbrev pub Forest : Store → ℕ → List Tree → Type 0
Forest st p [] = Unit
Forest st p (t ∷ ts) = Stands st p t × Forest st (suc p) ts

pub Forest-append :
    (st : Store) (p q : ℕ) (ts us : List Tree)
    → p + length ts ≡ q
    → Forest st p (ts ++ us)
    → Forest st p ts × Forest st q us
Forest-append st p q [] us e f = (tt, subst (λ n. Forest st n us) (omega arith) f)
Forest-append st p q (t ∷ ts) us e f =
    let (l, r) = Forest-append st (suc p) q ts us (omega arith) f.1 in ((f.0, l), r)

pub total_length-append :
    (ts us : List Tree) → total_length (ts ++ us) ≡ total_length ts + total_length us
unfolding total_length
total_length-append [] us = omega arith
total_length-append (t ∷ ts) us = omega (arith, total_length-append ts us)

-- A list that is not empty has a last element.
pub split_last :
    (ts : List Tree) (n : ℕ)
    → length ts ≡ suc n
    → (us : List Tree) × (t : Tree) × (ts ≡ us ++ t ∷ []) × (length us ≡ n)
split_last [] n e = absurd (omega arith)
split_last (t ∷ []) n e = ([], t, refl, omega arith)
split_last (t ∷ u ∷ ts) n e =
    let (us, v, parts, count) = split_last (u ∷ ts) (n - 1) (omega arith) in
    (t ∷ us, v, ap (λ l. t ∷ l) parts, omega arith)
