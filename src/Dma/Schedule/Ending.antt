-- ===== src/Dma/Schedule/Ending.antt =====
-- How the loop of multithread_test_template.c ends: on a remainder by zero.
use cheritest.Common.{
  ℕ, zero, suc, ◌-◌, ◌<◌, ◌≡◌, refl, ◌⊎◌, inl, inr, if◌then◌else◌, ok, fault, hung, arith,
}
use cheritest.Dma.Schedule.{
  Control, Schedule, pick_three, remove_third, switch_and_wait, switch_round, switch_loop,
  start_all, set_up_all, initial, test,
}
use cheritest.Dma.Schedule.Threads.{pick_three_lem, pick_three_none}

zero_or_more : (a : ℕ) → (a ≡ 0) ⊎ (0 < a)
zero_or_more a = omega arith

-- Three picks fault, or leave a thread active.
pick_three_cases :
    (s : Schedule)
    → (pick_three s ≡ fault)
      ⊎ ((s' : Schedule) × (pick_three s ≡ ok s') × (0 < s'.active_thread_count))
pick_three_cases s = elim (zero_or_more s.active_thread_count) [
  | inl z ↦ inl (pick_three_none s z)
  | inr h ↦ let (s', runs, p) = pick_three_lem s h in inr (s', runs, omega (arith, p.same_count))
]

module _ {E : Type 0} (control : Control E) where
  round_cases :
      (s : Schedule) (e : E)
      → (switch_round control s e ≡ fault)
        ⊎ ((s' : Schedule) × (e' : E) × (switch_round control s e ≡ ok (s', e'))
            × (0 < s'.active_thread_count))
  unfolding switch_round
  round_cases s e =
      let (s1, e1) = switch_and_wait control s e in
      elim (pick_three_cases
        (if control.dma_thread_ready e1 s.third.thread then remove_third s1 else s1)) [
          | inl f ↦ inl (rw f refl)
          | inr (s', runs, h) ↦ inr (s', e1, rw runs refl, h)
        ]

  switch_loop_ends :
      (fuel : ℕ) (s : Schedule) (e : E)
      → 0 < s.active_thread_count
      → (switch_loop control fuel s e ≡ fault) ⊎ (switch_loop control fuel s e ≡ hung)
  unfolding switch_loop
  switch_loop_ends zero s e h = inr refl
  switch_loop_ends (suc fuel) s e h = elim (round_cases s e) [
    | inl f ↦ inl (rw (switch_loop, some_left, f) refl)
    | inr (s', e', runs, k) ↦ elim (switch_loop_ends fuel s' e' k) [
      | inl f ↦ inl (rw (switch_loop, some_left, runs, f) refl)
      | inr f ↦ inr (rw (switch_loop, some_left, runs, f) refl)
    ]
  ]
    where
      some_left : s.active_thread_count ≡ suc (s.active_thread_count - 1)
      some_left = omega arith

  -- Whatever the engine does, `test` does not return: the run meets a remainder by zero, after the
  -- last thread is removed if not before, or outlasts its fuel.
  pub test_never_returns :
      (fuel thread_count seed : ℕ) (e : E)
      → (test control fuel thread_count seed e ≡ fault)
        ⊎ (test control fuel thread_count seed e ≡ hung)
  unfolding test
  test_never_returns fuel thread_count seed e =
      elim (pick_three_cases (initial thread_count seed)) [
        | inl f ↦ inl (rw f refl)
        | inr (s, runs, h) ↦ rw runs (
            switch_loop_ends fuel s
              (start_all control 0 thread_count (set_up_all control 0 thread_count e)) h)
      ]
