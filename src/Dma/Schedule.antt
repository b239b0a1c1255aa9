-- ===== src/Dma/Schedule.antt =====
-- fuzz_dma/multithread_test_template.c: the loop that switches between the threads of the engine
-- until all have finished.
pub mod Correct
pub mod Ending
pub mod Progress
pub mod Threads
pub mod Tests
use cheritest.Common.{
  ℕ, zero, suc, ◌+◌, ◌-◌, ◌*◌, ◌/◌, ◌%◌, ◌^◌, Bool, true, false, ◌==◌, if◌then◌else◌, Run, ok,
  fault, hung, ◌>>=◌,
}
use cheritest.Dma.Rand.{myrand}

-- The functions of DMAControl.h, which is not part of the repository, on the engine's state, and
-- the loop of no-operations.
pub record Control (E : Type 0) : Type 0 where
  pub dma_set_up : (thread : ℕ) → E → E
  pub dma_start_transfer : (thread : ℕ) → E → E
  pub dma_switch_to : (thread : ℕ) → E → E
  pub dma_thread_ready : E → (thread : ℕ) → Bool
  pub wait : (periods : ℕ) → E → E

-- thread_index[k] and thread[k]
pub record Pick : Type 0 where
  pub index : ℕ
  pub thread : ℕ

-- The variables of `test`, and the generator's `next`.
pub record Schedule : Type 0 where
  pub next : ℕ
  pub active_threads : ℕ → ℕ
  pub active_thread_count : ℕ
  pub first : Pick
  pub second : Pick
  pub third : Pick

-- `myrand() % active_thread_count`: a remainder by 0 is undefined, a fault here.
unfoldable pub pick : Schedule → Run (Pick × Schedule)
pick s =
    let (r, next) = myrand s.next in
    let index = r % s.active_thread_count in
    if s.active_thread_count == 0
    then fault
    else ok (record { index = index; thread = s.active_threads index }, record s { next = next })

-- The loop that fills the three picks.
unfoldable pub pick_three : Schedule → Run Schedule
pick_three s = pick s >>= λ (a, s1). pick s1 >>= λ (b, s2).
    pick s2 >>= λ (c, s3). ok (record s3 { first = a; second = b; third = c })

-- The last active thread replaces the third pick, and the array shrinks.
unfoldable pub remove_third : Schedule → Schedule
remove_third s = record s {
  active_threads = λ i.
      if i == s.third.index
      then s.active_threads (s.active_thread_count - 1)
      else s.active_threads i;
  active_thread_count = s.active_thread_count - 1;
}

-- Before the picks, all threads are active.
abbrev pub initial : (thread_count seed : ℕ) → Schedule
initial thread_count seed = record {
  next = seed;
  active_threads = λ i. i;
  active_thread_count = thread_count;
  first = record { index = 0; thread = 0 };
  second = record { index = 0; thread = 0 };
  third = record { index = 0; thread = 0 };
}

module _ {E : Type 0} (control : Control E) where
  -- The engine after the three switches and the wait, with the generator's `next`.
  unfoldable pub switch_and_wait : Schedule → E → Schedule × E
  switch_and_wait s e =
      let e' =
        control.dma_switch_to s.third.thread
          (control.dma_switch_to s.second.thread (control.dma_switch_to s.first.thread e)) in
      let (r, next) = myrand s.next in (record s { next = next }, control.wait (r % 20) e')

  -- One round of the `while` loop.
  unfoldable pub switch_round : Schedule → E → Run (Schedule × E)
  switch_round s e =
      let (s', e') = switch_and_wait s e in
      let s'' = if control.dma_thread_ready e' s.third.thread then remove_third s' else s' in
      pick_three s'' >>= λ t. ok (t, e')

  unfoldable pub switch_loop : (fuel : ℕ) → Schedule → E → Run (Schedule × E)
  switch_loop zero s e = hung
  switch_loop (suc fuel) s e = elim s.active_thread_count [
    | zero ↦ ok (s, e)
    | suc n ↦ switch_round s e >>= λ (s', e'). switch_loop fuel s' e'
  ]

  -- The two loops over all threads before it.
  unfoldable pub set_up_all : (i count : ℕ) → E → E
  set_up_all i zero e = e
  set_up_all i (suc count) e = set_up_all (i + 1) count (control.dma_set_up i e)

  unfoldable pub start_all : (i count : ℕ) → E → E
  start_all i zero e = e
  start_all i (suc count) e = start_all (i + 1) count (control.dma_start_transfer i e)

  -- `test`, without the sources and the assertions that the template is filled with.
  unfoldable pub test : (fuel thread_count seed : ℕ) → E → Run (Schedule × E)
  test fuel thread_count seed e = pick_three (initial thread_count seed) >>= λ s.
      switch_loop fuel s (start_all 0 thread_count (set_up_all 0 thread_count e))
