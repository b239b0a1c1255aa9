-- ===== src/Dma/Structure/Count.antt =====
-- How often a node occurs in the trees that the nodes of a store stand for.
use cheritest.Common.{
  ℕ, suc, ◌+◌, ◌≡◌, ap, ◌∙◌, Option, none, some, List, [], ◌∷◌, ◌++◌, ◌==◌, if◌then◌else◌, arith,
  length,
}
use cheritest.Dma.Structure.{Store}
use cheritest.Dma.Tree.{Tree, loop, seq, op}

abbrev pub one : (p q : ℕ) → ℕ
one p q = if p == q then 1 else 0

module _ (st : Store) (q : ℕ) where
  -- In the tree that hangs on a pointer, which is counted by `count`.
  abbrev pub below : (count : ℕ → ℕ) → Option ℕ → ℕ
  below count none = 0
  below count (some l) = count l

  abbrev pub occurrences : Tree → (p : ℕ) → ℕ
  occurrences op p = one p q
  occurrences (loop body) p = one p q + below (occurrences body) (st.node p).dmapn_left_child
  occurrences (seq left right) p =
      one p q
      + (below (occurrences left) (st.node p).dmapn_left_child
          + below (occurrences right) (st.node p).dmapn_right_child)

  -- In the trees of the nodes from `p` on.
  abbrev pub all_occurrences : (p : ℕ) → List Tree → ℕ
  all_occurrences p [] = 0
  all_occurrences p (t ∷ ts) = occurrences t p + all_occurrences (suc p) ts

  pub all_occurrences-append :
      (p r : ℕ) (ts us : List Tree)
      → p + length ts ≡ r
      → all_occurrences p (ts ++ us) ≡ all_occurrences p ts + all_occurrences r us
  all_occurrences-append p r [] us e =
      ap (λ n. all_occurrences n us) {x = p} {y = r} (omega arith) ∙ omega arith
  all_occurrences-append p r (t ∷ ts) us e =
      omega (arith, all_occurrences-append (suc p) r ts us (omega arith))

  pub occurrences-loop :
      (body : Tree) (p l : ℕ)
      → (st.node p).dmapn_left_child ≡ some l
      → occurrences (loop body) p ≡ one p q + occurrences body l
  occurrences-loop body p l e = ap (λ c. one p q + below (occurrences body) c) e

  pub occurrences-seq :
      (left right : Tree) (p l r : ℕ)
      → (st.node p).dmapn_left_child ≡ some l
      → (st.node p).dmapn_right_child ≡ some r
      → occurrences (seq left right) p ≡ one p q + (occurrences left l + occurrences right r)
  occurrences-seq left right p l r e e' =
      ap
        (λ c.
          one p q
          + (below (occurrences left) c + below (occurrences right) (st.node p).dmapn_right_child))
        e
      ∙ ap (λ c. one p q + (occurrences left l + below (occurrences right) c)) e'
