-- ===== src/Dma/Schedule/Correct.antt =====
-- Which threads the loop of multithread_test_template.c switches to, and how it ends.
use cheritest.Common.{
  ℕ, ◌-◌, ◌<◌, ◌≡◌, ◌≢◌, refl, sym, ap, ◌∙◌, ◌↔◌, Bool, true, false, ok, fault, arith, ◌⊎◌, inl,
  inr, Bool-cases, if◌then◌else◌,
}
use mathlib.Core.Path.{subst}
use cheritest.Dma.Schedule.{Control, Pick, Schedule, remove_third, switch_and_wait, switch_round}
use cheritest.Dma.Schedule.Threads.{
  IsActive, IsPick, IsSchedule, Picked, pick_three_lem, pick_three_none, removed_threads,
  removed_distinct, removed_inside,
}

-- Picks among the threads of `r`, once these are known to be distinct threads of the engine.
pub Picked-IsSchedule :
    (n : ℕ) (r s' : Schedule)
    → ((i : ℕ) → i < r.active_thread_count → r.active_threads i < n)
    → ((i j : ℕ)
        → i < r.active_thread_count
        → j < r.active_thread_count
        → r.active_threads i ≡ r.active_threads j
        → i ≡ j)
    → Picked r s'
    → IsSchedule n s'
Picked-IsSchedule n r s' inside distinct p = record {
  inside =
      λ i h. subst (λ f. f i < n) (sym p.same_threads) (inside i (omega (arith, p.same_count)));
  distinct = λ i j h k e.
      distinct i j (omega (arith, p.same_count)) (omega (arith, p.same_count))
        (sym (ap (λ f. f i) p.same_threads) ∙ e ∙ ap (λ f. f j) p.same_threads);
  first = among s'.first p.first;
  second = among s'.second p.second;
  third = among s'.third p.third;
}
  where
    among : (a : Pick) → IsPick r a → IsPick s' a
    among a h = (omega (arith, h.0, p.same_count), h.1 ∙ ap (λ f. f a.index) (sym p.same_threads))

Picked-IsActive : (r s' : Schedule) (x : ℕ) → Picked r s' → IsActive s' x ↔ IsActive r x
Picked-IsActive r s' x p = (
  λ (i, h, e). (i, omega (arith, h, p.same_count), sym (ap (λ f. f i) p.same_threads) ∙ e),
  λ (i, h, e). (i, omega (arith, h, p.same_count), ap (λ f. f i) p.same_threads ∙ e),
)

compose : {A B C : Type 0} → A ↔ B → B ↔ C → A ↔ C
compose f g = (λ a. g.0 (f.0 a), λ c. f.1 (g.1 c))

module _ {E : Type 0} (control : Control E) (n : ℕ) (s : Schedule) (e : E)
    (is : IsSchedule n s) where
  -- The engine after the switches and the wait.
  abbrev pub after : E
  after = (switch_and_wait control s e).1

  -- Whether the round finds its third pick ready.
  abbrev pub found : Bool
  found = control.dma_thread_ready after s.third.thread

  -- While a thread is active, a round that does not find its third pick ready keeps the active
  -- threads, which stay distinct threads of the engine, and picks three of them.
  pub switch_round_waits :
      found ≡ false
      → 0 < s.active_thread_count
      → (s' : Schedule) × (switch_round control s e ≡ ok (s', after))
        × IsSchedule n s'
        × (s'.active_thread_count ≡ s.active_thread_count)
        × ((x : ℕ) → IsActive s' x ↔ IsActive s x)
  unfolding switch_round switch_and_wait
  switch_round_waits f h =
      let s1 = (switch_and_wait control s e).0 in
      let (s', runs, p) = pick_three_lem s1 h in
      (
        s',
        rw (f, runs) refl,
        Picked-IsSchedule n s1 s' is.inside is.distinct p,
        p.same_count,
        λ x. Picked-IsActive s1 s' x p,
      )

  -- A round that finds its third pick ready, with more than one thread active, makes that thread
  -- inactive and no other, and picks three of those left, distinct threads of the engine as before.
  pub switch_round_removes :
      found ≡ true
      → 1 < s.active_thread_count
      → (s' : Schedule) × (switch_round control s e ≡ ok (s', after))
        × IsSchedule n s'
        × (s'.active_thread_count ≡ s.active_thread_count - 1)
        × ((x : ℕ) → IsActive s' x ↔ (IsActive s x × (x ≢ s.third.thread)))
  unfolding switch_round switch_and_wait remove_third
  switch_round_removes f h =
      let s1 = (switch_and_wait control s e).0 in
      let (s', runs, p) = pick_three_lem (remove_third s1) (omega arith) in
      (
        s',
        rw (f, runs) refl,
        Picked-IsSchedule n (remove_third s1) s'
            (removed_inside s1 is.third is.distinct n is.inside)
            (removed_distinct s1 is.third is.distinct) p,
        p.same_count,
        λ x.
            compose (Picked-IsActive (remove_third s1) s' x p)
              (removed_threads s1 is.third is.distinct x),
      )

  -- A round that finds the only active thread ready takes a remainder by zero.
  pub switch_round_last :
      found ≡ true → s.active_thread_count ≡ 1 → switch_round control s e ≡ fault
  unfolding switch_round switch_and_wait remove_third
  switch_round_last f h =
      let s1 = (switch_and_wait control s e).0 in
      rw (f, pick_three_none (remove_third s1) (omega arith)) refl

  -- In a state where the active threads are distinct threads of the engine and the three picks are
  -- among them, a round that does not find the only active thread ready succeeds and keeps the state
  -- so: it makes its third pick inactive if it finds it ready, and no other thread.
  pub switch_round-IsSchedule :
      0 < s.active_thread_count
      → (found ≡ false) ⊎ (1 < s.active_thread_count)
      → (s' : Schedule) × (switch_round control s e ≡ ok (s', after))
        × IsSchedule n s'
        × (s'.active_thread_count
            ≡ (if found then s.active_thread_count - 1 else s.active_thread_count))
        × ((x : ℕ) → IsActive s' x ↔ (IsActive s x × (found ≡ true → x ≢ s.third.thread)))
  switch_round-IsSchedule some_left more = elim (Bool-cases found) [
    | inl hit ↦
        let (s', runs, is', count, active) = switch_round_removes hit (ground arith) in
        (
          s',
          runs,
          is',
          ground (arith, count),
          λ x. (
            λ a. let (b, ne) = (active x).0 a in (b, λ h. ne),
            λ (b, ne). (active x).1 (b, ne hit),
          ),
        )
    | inr miss ↦
        let (s', runs, is', count, active) = switch_round_waits miss some_left in
        (
          s',
          runs,
          is',
          ground (arith, count),
          λ x. (λ a. ((active x).0 a, λ h. ground arith), λ (b, ne). (active x).1 b),
        )
  ]
