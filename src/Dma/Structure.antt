-- ===== src/Dma/Structure.antt =====
-- fuzz_dma/dma_test_generation.c: `random_dma_program_structure`, which grows a tree of program
-- nodes breadth first, its unfilled nodes being a queue linked by `dmapn_next_space`.
pub mod Bound
pub mod Correct
pub mod Count
pub mod Forest
pub mod Free
pub mod Release
pub mod Round
pub mod Grow
pub mod Queue
use cheritest.Common.{
  ℕ, zero, suc, ◌+◌, ◌-◌, ◌*◌, Bool, true, false, Option, none, some, ◌==◌, ltb, if◌then◌else◌, Run,
  ok, fault, hung, ◌>>=◌,
}
use cheritest.Common.Int.{ℤ, pos, sub_ℕ, ◌*ℤ◌, ltb_ℤ}
use cheritest.Dma.Rand.{myrand, mysrand}

pub data NodeType : Type 0 where
  dmapnt_loop dmapnt_seq dmapnt_op : NodeType

-- A node as malloc leaves it has no field set; `none` is the value of memory that was never written.
pub record Node : Type 0 where
  pub dmapn_type : Option NodeType
  pub dmapn_left_child : Option ℕ
  pub dmapn_right_child : Option ℕ
  pub dmapn_next_space : Option ℕ

abbrev pub fresh : Node
fresh = record {
  dmapn_type = none;
  dmapn_left_child = none;
  dmapn_right_child = none;
  dmapn_next_space = none;
}

-- The nodes in the order of their allocation; a pointer is a node's number.
pub record Store : Type 0 where
  pub used : ℕ
  pub node : ℕ → Node

abbrev pub update : Store → ℕ → (Node → Node) → Store
update st p f = record st { node = λ q. if p == q then f (st.node p) else st.node q }

-- `malloc` returns the pointer `st.used`.
abbrev pub malloc : Store → Store
malloc st = record { used = st.used + 1; node = λ q. if st.used == q then fresh else st.node q }

abbrev pub set_type : NodeType → ℕ → Store → Store
set_type k p st = update st p (λ n. record n { dmapn_type = some k })

abbrev pub set_left_child : ℕ → ℕ → Store → Store
set_left_child l p st = update st p (λ n. record n { dmapn_left_child = some l })

abbrev pub set_right_child : ℕ → ℕ → Store → Store
set_right_child r p st = update st p (λ n. record n { dmapn_right_child = some r })

abbrev pub set_next_space : ℕ → ℕ → Store → Store
set_next_space q p st = update st p (λ n. record n { dmapn_next_space = some q })

-- The variables of the function, with the generator's `next`. The loop runs while `spaces` is
-- positive and takes one away at most, so `spaces` is never negative.
pub record Build : Type 0 where
  pub next : ℕ
  pub store : Store
  pub next_space : Option ℕ
  pub last_space : ℕ
  pub spaces : ℕ
  pub program_length : ℕ

abbrev pub length_limit : ℕ
length_limit = 12

abbrev pub space_limit : ℕ
space_limit = 10

abbrev pub rand_limit : ℕ
rand_limit = 32767

-- The two comparisons, between `long`s that may be negative.
unfoldable pub choose : (program_length spaces p : ℕ) → NodeType
choose program_length spaces p =
    let space_bias = sub_ℕ space_limit spaces in
    let length_bias = sub_ℕ length_limit program_length in
    if ltb_ℤ (pos rand_limit *ℤ length_bias) (pos (length_limit * p))
    then dmapnt_op
    else (if ltb_ℤ (pos rand_limit *ℤ length_bias *ℤ space_bias)
          (pos (length_limit * space_limit * p))
        then dmapnt_loop
        else dmapnt_seq)

-- The body's three branches at the node `here`.
unfoldable pub fill_op : ℕ → Build → Build
fill_op here b = record b {
  store = set_type dmapnt_op here b.store;
  program_length = b.program_length + 1;
  spaces = b.spaces - 1;
}

unfoldable pub fill_loop : ℕ → Build → Build
fill_loop here b =
    let left = b.store.used in
    record b {
      store =
          set_next_space left b.last_space
            (set_left_child left here (malloc (set_type dmapnt_loop here b.store)));
      last_space = left;
      program_length = b.program_length + 2;
    }

unfoldable pub fill_seq : ℕ → Build → Build
fill_seq here b =
    let left = b.store.used in
    let right = b.store.used + 1 in
    record b {
      store = set_next_space right left (
          set_next_space left b.last_space (
            set_right_child right here
              (set_left_child left here (malloc (malloc (set_type dmapnt_seq here b.store))))));
      last_space = right;
      spaces = b.spaces + 1;
    }

abbrev pub fill : NodeType → ℕ → Build → Build
fill dmapnt_op = fill_op
fill dmapnt_loop = fill_loop
fill dmapnt_seq = fill_seq

-- One round, which draws, fills the node at the head of the queue and takes it off. Storing through
-- a head that was never set is a fault. Taking the head off only moves the value of the field,
-- which in the last round is one that malloc left as it was, and that is no fault here.
unfoldable pub round : Build → Run Build
round b = elim b.next_space [
  | none ↦ fault
  | some here ↦
      let (p, next) = myrand b.next in
      let b' = fill (choose b.program_length b.spaces p) here (record b { next = next }) in
      ok (record b' { next_space = (b'.store.node here).dmapn_next_space })
]

unfoldable pub build_loop : ℕ → Build → Run Build
build_loop zero b = hung
build_loop (suc fuel) b = elim (ltb 0 b.spaces) [
  | true ↦ round b >>= λ b'. build_loop fuel b'
  | false ↦ ok b
]

-- The state before the loop: one node, the root, which is the only space.
unfoldable pub start : ℕ → Build
start seed = record {
  next = mysrand seed;
  store = malloc (record { used = 0; node = λ q. fresh });
  next_space = some 0;
  last_space = 0;
  spaces = 1;
  program_length = 0;
}

-- The rounds that always suffice.
abbrev pub build_fuel : ℕ
build_fuel = 51

unfoldable pub random_dma_program_structure : ℕ → Run Build
random_dma_program_structure seed = build_loop build_fuel (start seed)
