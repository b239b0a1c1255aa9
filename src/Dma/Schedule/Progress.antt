-- ===== src/Dma/Schedule/Progress.antt =====
-- The loop of multithread_test_template.c on an engine that gets its work done.
use cheritest.Common.{
  ℕ, zero, suc, ◌+◌, ◌-◌, ◌≤◌, ◌<◌, ◌≡◌, ◌∙◌, refl, ◌⊎◌, inl, inr, true, false, Bool-cases, ok,
  fault, arith,
}
use cheritest.Dma.Schedule.{
  Control, Schedule, initial, pick_three, switch_round, switch_loop, set_up_all, start_all, test,
}
use cheritest.Dma.Schedule.Threads.{IsSchedule, pick_three_lem}
use cheritest.Dma.Schedule.Correct.{
  after, found, Picked-IsSchedule, switch_round_waits, switch_round_removes, switch_round_last,
}

module _ {E : Type 0} (control : Control E) where
  -- Rounds of the loop, one after the other.
  pub data Rounds : Schedule → E → Schedule → E → Type 0 where
    none_more : {s : Schedule} {e : E} → Rounds s e s e
    one_more :
        {s s' t : Schedule} {e e' f : E}
        → switch_round control s e ≡ ok (s', e')
        → Rounds s' e' t f
        → Rounds s e t f

  module _ (n : ℕ) where
    -- An engine with a measure of the work that is left: the switches and the wait of a round never
    -- add to it, and they do some of it unless they find the third pick ready.
    pub record Progress (work : E → ℕ) : Type 0 where
      pub no_more :
          (s : Schedule) (e : E) (is : IsSchedule n s) → work (after control n s e is) ≤ work e
      pub some_done :
          (s : Schedule) (e : E) (is : IsSchedule n s)
          → found control n s e is ≡ false
          → work (after control n s e is) < work e

    -- The loop gets to a round with one thread active, and that round finds it ready.
    pub record Finishes (s : Schedule) (e : E) : Type 0 where
      pub s' : Schedule
      pub e' : E
      pub rounds : Rounds s e s' e'
      pub is : IsSchedule n s'
      pub one_left : s'.active_thread_count ≡ 1
      pub ready : found control n s' e' is ≡ true

    module _ (work : E → ℕ) (progress : Progress work) where
      loop_goes :
          (fuel : ℕ) (s s' : Schedule) (e e' : E)
          → 0 < s.active_thread_count
          → switch_round control s e ≡ ok (s', e')
          → switch_loop control (suc fuel) s e ≡ switch_loop control fuel s' e'
      unfolding switch_loop
      loop_goes fuel s s' e e' h runs =
          let some_left : s.active_thread_count ≡ suc (s.active_thread_count - 1) = omega arith in
          rw (switch_loop, some_left, runs) refl

      loop_faults :
          (fuel : ℕ) (s : Schedule) (e : E)
          → 0 < s.active_thread_count
          → switch_round control s e ≡ fault
          → switch_loop control (suc fuel) s e ≡ fault
      unfolding switch_loop
      loop_faults fuel s e h runs =
          let some_left : s.active_thread_count ≡ suc (s.active_thread_count - 1) = omega arith in
          rw (switch_loop, some_left, runs) refl

      one_or_more : (a : ℕ) → 0 < a → (a ≡ 1) ⊎ (1 < a)
      one_or_more a h = omega arith

      after_round :
          (fuel : ℕ) (s s' : Schedule) (e e' : E)
          → 0 < s.active_thread_count
          → switch_round control s e ≡ ok (s', e')
          → Finishes s' e' × (switch_loop control fuel s' e' ≡ fault)
          → Finishes s e × (switch_loop control (suc fuel) s e ≡ fault)
      after_round fuel s s' e e' h runs (f, faults) = (
        record {
          s' = f.s';
          e' = f.e';
          rounds = one_more runs f.rounds;
          is = f.is;
          one_left = f.one_left;
          ready = f.ready;
        },
        loop_goes fuel s s' e e' h runs ∙ faults,
      )

      switch_loop-Finishes :
          (fuel : ℕ) (s : Schedule) (e : E)
          → IsSchedule n s
          → 0 < s.active_thread_count
          → s.active_thread_count + work e ≤ fuel
          → Finishes s e × (switch_loop control fuel s e ≡ fault)
      switch_loop-Finishes zero s e is h room = absurd (omega arith)
      switch_loop-Finishes (suc fuel) s e is h room = elim (Bool-cases (found control n s e is)) [
        | inl hit ↦ elim (one_or_more s.active_thread_count h) [
          | inl one_left ↦ (
            record {
              s' = s;
              e' = e;
              rounds = none_more;
              is = is;
              one_left = one_left;
              ready = hit;
            },
            loop_faults fuel s e h (switch_round_last control n s e is hit one_left),
          )
          | inr more ↦
              let (s', runs, is', count, _) = switch_round_removes control n s e is hit more in
              after_round fuel s s' e (after control n s e is) h runs (
                switch_loop-Finishes fuel s' (after control n s e is) is' (omega arith)
                  (omega (arith, progress.no_more s e is)))
        ]
        | inr miss ↦
            let (s', runs, is', count, _) = switch_round_waits control n s e is miss h in
            after_round fuel s s' e (after control n s e is) h runs (
              switch_loop-Finishes fuel s' (after control n s e is) is' (omega arith)
                (omega (arith, progress.some_done s e is miss)))
      ]

      -- The template's `test` on any number of threads, from any seed, with an engine that in each
      -- round of the loop either has the third thread that was picked ready or does some of its
      -- work: every thread but one is found ready and removed, after which the last one is found
      -- ready too. The loop needs at most a round for each thread and each piece of the work, and
      -- it ends in the remainder by zero.
      pub test-Finishes :
          (seed : ℕ) (e : E)
          → 0 < n
          → let e' = start_all control 0 n (set_up_all control 0 n e) in
            (s : Schedule) × (pick_three (initial n seed) ≡ ok s)
            × Finishes s e'
            × (test control (n + work e') n seed e ≡ fault)
      unfolding test
      test-Finishes seed e some_threads =
          let e' = start_all control 0 n (set_up_all control 0 n e) in
          let (s, picks, p) = pick_three_lem (initial n seed) some_threads in
          let is = Picked-IsSchedule n (initial n seed) s (λ i h. h) (λ i j h k q. q) p in
          let (f, faults) =
            switch_loop-Finishes (n + work e') s e' is (omega (arith, p.same_count))
              (omega (arith, p.same_count)) in
          (s, picks, f, rw picks faults)
