-- ===== src/Dma/Schedule/Tests.antt =====
-- The loop of multithread_test_template.c on an engine that is a list of the switches made.
use cheritest.Common.{
  ℕ, ◌-◌, ◌==◌, ◌≡◌, ◌≢◌, refl, ◌↔◌, ◌⊎◌, inr, ok, fault, hung, List, [], ◌∷◌, Bool, true, arith,
}
use cheritest.Dma.Schedule.{
  Control, Schedule, switch_round, switch_and_wait, test, initial, pick_three, set_up_all,
  start_all,
}
use cheritest.Dma.Schedule.Progress.{Progress, Finishes, test-Finishes}
use cheritest.Dma.Schedule.Threads.{IsActive, IsSchedule}
use cheritest.Dma.Schedule.Correct.{switch_round-IsSchedule}
use cheritest.Dma.Schedule.Ending.{test_never_returns}

-- Every thread is ready, or none is.
abbrev engine : (ready : Bool) → Control (List ℕ)
engine ready = record {
  dma_set_up = λ thread e. e;
  dma_start_transfer = λ thread e. e;
  dma_switch_to = λ thread e. thread ∷ e;
  dma_thread_ready = λ e thread. ready;
  wait = λ periods e. e;
}

-- Four threads, the last of them picked three times.
abbrev four : Schedule
four = record {
  next = 1;
  active_threads = λ i. i;
  active_thread_count = 4;
  first = record { index = 3; thread = 3 };
  second = record { index = 3; thread = 3 };
  third = record { index = 1; thread = 1 };
}

four-IsSchedule : IsSchedule 4 four
four-IsSchedule = record {
  inside = λ i h. h;
  distinct = λ i j h k e. e;
  first = (omega arith, refl);
  second = (omega arith, refl);
  third = (omega arith, refl);
}

switch_round-IsSchedule_example :
    (s' : Schedule) × (switch_round (engine true) four [] ≡ ok (s', 1 ∷ 3 ∷ 3 ∷ []))
    × IsSchedule 4 s'
    × (s'.active_thread_count ≡ 3)
    × ((x : ℕ) → IsActive s' x ↔ (IsActive four x × (true ≡ true → x ≢ 1)))
unfolding switch_and_wait
switch_round-IsSchedule_example =
    switch_round-IsSchedule (engine true) 4 four [] four-IsSchedule (omega arith)
      (inr (omega arith))

test_never_returns_example :
    (test (engine true) 10 4 7 [] ≡ fault) ⊎ (test (engine true) 10 4 7 [] ≡ hung)
test_never_returns_example = test_never_returns (engine true) 10 4 7 []

-- An engine with some periods of work left, whose threads are ready once that is done.
abbrev countdown : Control ℕ
countdown = record {
  dma_set_up = λ thread left. left;
  dma_start_transfer = λ thread left. left;
  dma_switch_to = λ thread left. left - 1;
  dma_thread_ready = λ left thread. left == 0;
  wait = λ periods left. left - periods;
}

countdown-Progress : Progress countdown 3 (λ left. left)
unfolding switch_and_wait
countdown-Progress = record {
  no_more = λ s left is. omega arith;
  some_done = λ s left is miss. ground arith;
}

test-Finishes_example :
    (s : Schedule) × (pick_three (initial 3 7) ≡ ok s)
    × Finishes countdown 3 s 100
    × (test countdown 103 3 7 100 ≡ fault)
unfolding set_up_all start_all
test-Finishes_example =
    test-Finishes countdown 3 (λ left. left) countdown-Progress 7 100 (omega arith)
