-- ===== src/Dma/Transfers.antt =====
-- fuzz_dma/dma_test_generation.c: `record_transfer`, `list_transfers` and `free_transfer_list`,
-- with the linked list on an explicit heap.
pub mod Correct
use cheritest.Common.{
  ℕ, zero, suc, ◌+◌, Bool, true, false, Option, none, some, ◌==◌, if◌then◌else◌, List, [], ◌∷◌,
  ◌++◌, Run, ok, fault, hung, ◌>>=◌,
}

pub record Transfer : Type 0 where
  pub source : ℕ
  pub destination : ℕ
  pub size : ℕ

-- The states of DMAModel.h that the code names.
pub data MachineState : Type 0 where
  dmam_running dmam_stopped : MachineState

-- `struct dma_thread`, of DMAModel.h.
pub record Thread : Type 0 where
  pub dmat_program_counter : ℕ
  pub dmat_external_program_counter : ℕ
  pub dmat_source : ℕ
  pub dmat_external_source : ℕ
  pub dmat_destination : ℕ
  pub dmat_external_destination : ℕ
  pub dmat_state : MachineState

-- `dma_execute_instruction` of DMAModel.h, which is not part of the repository: the thread after an
-- instruction, and the transfers that it hands to the callback, in order.
abbrev pub Execute : Type 0
Execute = Thread → Thread × List Transfer

-- The field `next`: as malloc leaves it, NULL, or a pointer.
pub data Link : Type 0 where
  unset null : Link
  to : ℕ → Link

pub record Cell : Type 0 where
  pub item : Option Transfer
  pub next : Link

-- `live` is the cells that malloc gave out and that were not freed since.
pub record Heap : Type 0 where
  pub used : ℕ
  pub cell : ℕ → Cell
  pub live : ℕ → Bool

-- A cell that is not live is not read, written or freed.
abbrev pub deref : ℕ → Heap → Run Cell
deref p h = if h.live p then ok (h.cell p) else fault

abbrev pub put : ℕ → Cell → Heap → Heap
put p c h = record h { cell = λ q. if p == q then c else h.cell q }

abbrev pub write : ℕ → (Cell → Cell) → Heap → Run Heap
write p f h = if h.live p then ok (put p (f (h.cell p)) h) else fault

abbrev pub free : ℕ → Heap → Run Heap
free p h =
    if h.live p then ok (record h { live = λ q. if p == q then false else h.live q }) else fault

-- `malloc` returns the pointer `h.used`; it is taken to succeed.
abbrev pub malloc : Heap → Heap
malloc h = record {
  used = h.used + 1;
  cell = λ q. if h.used == q then record { item = none; next = unset } else h.cell q;
  live = λ q. if h.used == q then true else h.live q;
}

abbrev pub set_next : ℕ → Link → Heap → Run Heap
set_next p l = write p (λ c. record c { next = l })

-- The callback: a new cell behind `tail`.
pub record_transfer : (tail : ℕ) → Transfer → Heap → Run Heap
record_transfer tail t h =
    let new = h.used in
    set_next tail (to new) (malloc h)
    >>= write new (λ c. record c { item = some t })
    >>= set_next new null

-- The calls of one instruction, which all get the same `tail`.
pub record_all : (tail : ℕ) → List Transfer → Heap → Run Heap
record_all tail [] h = ok h
record_all tail (t ∷ ts) h = record_transfer tail t h >>= record_all tail ts

-- `if (tail->next != NULL) tail = tail->next;`
pub follow : (tail : ℕ) → Link → Run ℕ
follow tail unset = fault
follow tail null = ok tail
follow tail (to q) = ok q

module _ (execute : Execute) where
  pub list_loop : (fuel : ℕ) → Thread → (tail : ℕ) → Heap → Run Heap
  list_loop zero th tail h = hung
  list_loop (suc fuel) th tail h = elim th.dmat_state [
    | dmam_stopped ↦ ok h
    | dmam_running ↦
        let (th', ts) = execute th in
        record_all tail ts h >>= λ h'.
        deref tail h' >>= λ c. follow tail c.next >>= λ tail'. list_loop fuel th' tail' h'
  ]

  -- The thread at the first instruction, with offsets from 0.
  abbrev pub first_thread : (program : ℕ) → Thread
  first_thread program = record {
    dmat_program_counter = program;
    dmat_external_program_counter = program;
    dmat_source = 0;
    dmat_external_source = 0;
    dmat_destination = 0;
    dmat_external_destination = 0;
    dmat_state = dmam_running;
  }

  -- The list's head and the heap, in which the false head is freed.
  pub list_transfers : (fuel program : ℕ) → Heap → Run (Link × Heap)
  list_transfers fuel program h =
      let false_head = h.used in
      set_next false_head null (malloc h)
      >>= list_loop fuel (first_thread program) false_head
      >>= λ h'. deref false_head h' >>= λ c. free false_head h' >>= λ h''. ok (c.next, h'')

-- The loop of `free_transfer_list`, which reads `next` before it frees.
pub free_transfer_list : (fuel : ℕ) → Link → Heap → Run Heap
free_transfer_list zero current h = hung
free_transfer_list (suc fuel) unset h = fault
free_transfer_list (suc fuel) null h = ok h
free_transfer_list (suc fuel) (to p) h =
    deref p h >>= λ c. free p h >>= free_transfer_list fuel c.next
