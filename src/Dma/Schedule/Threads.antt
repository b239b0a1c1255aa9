-- ===== src/Dma/Schedule/Threads.antt =====
-- The active threads of multithread_test_template.c: picking three, and removing one.
use mathlib.Core.Path.{subst}
use native.Mathlib.Nat.{mod-lt}
use cheritest.Common.{
  ℕ, ◌-◌, ◌%◌, ◌<◌, ◌≡◌, ◌≢◌, refl, sym, ap, ◌∙◌, ◌↔◌, ◌⊎◌, inl, inr, ◌==◌, ==_iff, true, false, ok,
  fault, arith,
}
use cheritest.Dma.Rand.{myrand}
use cheritest.Dma.Schedule.{Pick, Schedule, pick, pick_three, remove_third}

-- A thread that has not been found ready yet.
abbrev pub IsActive : Schedule → ℕ → Type 0
IsActive s x = (i : ℕ) × (i < s.active_thread_count) × (s.active_threads i ≡ x)

abbrev pub IsPick : Schedule → Pick → Type 0
IsPick s p = (p.index < s.active_thread_count) × (p.thread ≡ s.active_threads p.index)

-- The active threads are threads of the engine, no two alike, and the picks are among them.
pub record IsSchedule (n : ℕ) (s : Schedule) : Type 0 where
  pub inside : (i : ℕ) → i < s.active_thread_count → s.active_threads i < n
  pub distinct :
      (i j : ℕ)
      → i < s.active_thread_count
      → j < s.active_thread_count
      → s.active_threads i ≡ s.active_threads j
      → i ≡ j
  pub first : IsPick s s.first
  pub second : IsPick s s.second
  pub third : IsPick s s.third

pos→not_zero : (a : ℕ) → 0 < a → (a == 0) ≡ false
pos→not_zero a h = ground arith

zero_test : (a : ℕ) → a ≡ 0 → (a == 0) ≡ true
zero_test a h = ground arith

-- A pick succeeds while a thread is active, and changes the generator's state only.
pick_lem :
    (s : Schedule)
    → 0 < s.active_thread_count
    → (p : Pick) × (next : ℕ) × (pick s ≡ ok (p, record s { next = next })) × IsPick s p
unfolding pick
pick_lem s h =
    let (r, next) = myrand s.next in
    (
      record {
        index = r % s.active_thread_count;
        thread = s.active_threads (r % s.active_thread_count);
      },
      next,
      rw (pos→not_zero s.active_thread_count h) refl,
      (mod-lt r h, refl),
    )

-- The same threads are active, and three picks are made.
pub record Picked (s s' : Schedule) : Type 0 where
  pub same_threads : s'.active_threads ≡ s.active_threads
  pub same_count : s'.active_thread_count ≡ s.active_thread_count
  pub first : IsPick s s'.first
  pub second : IsPick s s'.second
  pub third : IsPick s s'.third

pub pick_three_lem :
    (s : Schedule)
    → 0 < s.active_thread_count
    → (s' : Schedule) × (pick_three s ≡ ok s') × Picked s s'
unfolding pick_three
pick_three_lem s h =
    let (a, n1, ra, ia) = pick_lem s h in
    let (b, n2, rb, ib) = pick_lem (record s { next = n1 }) h in
    let (c, n3, rc, ic) = pick_lem (record s { next = n2 }) h in
    (
      record s { next = n3; first = a; second = b; third = c },
      rw (ra, rb, rc) refl,
      record { same_threads = refl; same_count = refl; first = ia; second = ib; third = ic },
    )

-- No pick succeeds without an active thread.
pub pick_three_none : (s : Schedule) → s.active_thread_count ≡ 0 → pick_three s ≡ fault
unfolding pick_three pick
pick_three_none s h = rw (zero_test s.active_thread_count h) refl

ℕ-cases : (a b : ℕ) → (a ≡ b) ⊎ (a ≢ b)
ℕ-cases a b = grind arith

-- With the third pick removed, the array has the same threads but that one.
module _ (s : Schedule) (pick : IsPick s s.third)
    (distinct : (i j : ℕ)
      → i < s.active_thread_count
      → j < s.active_thread_count
      → s.active_threads i ≡ s.active_threads j
      → i ≡ j) where
  abbrev last : ℕ
  last = s.active_thread_count - 1

  -- A place that holds the removed thread is the pick's.
  own :
      (i : ℕ) → i < s.active_thread_count → s.active_threads i ≡ s.third.thread → i ≡ s.third.index
  own i h e = distinct i s.third.index h pick.0 (e ∙ pick.1)

  moved : (i : ℕ) → i ≡ s.third.index → (remove_third s).active_threads i ≡ s.active_threads last
  unfolding remove_third
  moved i h = rw ((==_iff i s.third.index).1 h) refl

  kept : (i : ℕ) → i ≢ s.third.index → (remove_third s).active_threads i ≡ s.active_threads i
  unfolding remove_third
  kept i h = ground arith

  pub removed_threads :
      (x : ℕ) → IsActive (remove_third s) x ↔ (IsActive s x × (x ≢ s.third.thread))
  unfolding remove_third
  removed_threads x = (down, up)
    where
      down : IsActive (remove_third s) x → IsActive s x × (x ≢ s.third.thread)
      down (i, h, e) = elim (ℕ-cases i s.third.index) [
        | inl t ↦ (
          (last, omega arith, sym (moved i t) ∙ e),
          λ q. absurd (omega (arith, own last (omega arith) (sym (moved i t) ∙ e ∙ q))),
        )
        | inr f ↦ (
          (i, omega arith, sym (kept i f) ∙ e),
          λ q. f (own i (omega arith) (sym (kept i f) ∙ e ∙ q)),
        )
      ]

      up : IsActive s x × (x ≢ s.third.thread) → IsActive (remove_third s) x
      up ((i, h, e), ne) =
          let off : i ≢ s.third.index = λ q. ne (sym e ∙ ap s.active_threads q ∙ sym pick.1) in
          elim (ℕ-cases i last) [
            | inl t ↦ (
              s.third.index,
              omega (arith, pick.0, off),
              moved s.third.index refl ∙ ap s.active_threads (sym t) ∙ e,
            )
            | inr f ↦ (i, omega arith, kept i off ∙ e)
          ]

  pub removed_distinct :
      (i j : ℕ)
      → i < last
      → j < last
      → (remove_third s).active_threads i ≡ (remove_third s).active_threads j
      → i ≡ j
  removed_distinct i j h k e = elim (ℕ-cases i s.third.index) [
    | inl t ↦ elim (ℕ-cases j s.third.index) [
      | inl u ↦ t ∙ sym u
      | inr u ↦ absurd (
          omega
            (arith, distinct last j (omega arith) (omega arith) (sym (moved i t) ∙ e ∙ kept j u)))
    ]
    | inr t ↦ elim (ℕ-cases j s.third.index) [
      | inl u ↦ absurd (
          omega
            (arith, distinct i last (omega arith) (omega arith) (sym (kept i t) ∙ e ∙ moved j u)))
      | inr u ↦ distinct i j (omega arith) (omega arith) (sym (kept i t) ∙ e ∙ kept j u)
    ]
  ]

  pub removed_inside :
      (n : ℕ)
      → ((i : ℕ) → i < s.active_thread_count → s.active_threads i < n)
      → (i : ℕ) → i < last
      → (remove_third s).active_threads i < n
  removed_inside n inside i h = elim (ℕ-cases i s.third.index) [
    | inl t ↦ subst (λ v. v < n) (sym (moved i t)) (inside last (omega arith))
    | inr t ↦ subst (λ v. v < n) (sym (kept i t)) (inside i (omega arith))
  ]
