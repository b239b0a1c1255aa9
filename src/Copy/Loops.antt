-- ===== src/Copy/Loops.antt =====
-- The copying loops of memcpy.c, for a unit of any size.
use cheritest.Common.{
  Run, ok, ℕ, zero, suc, ◌+◌, ◌*◌, ◌%◌, ◌≤◌, ◌<◌, ◌≡◌, ◌≢◌, refl, ap, ◌∙◌, ◌⊎◌, inl, inr, true,
  false, ◌==◌, arith,
}
use native.Mathlib.Nat.{add_assoc, add-mod_right, add-mul-mod_self_right}
use cheritest.Ctests.Memory.{Memory}
use cheritest.Copy.Copied.{copied, Units, store_unit-copied}
use cheritest.Copy.Masks.{IsPointerSize}
use cheritest.Copy.{
  word_mod, add64, sub64, neg64, Bounds, store_unit, copy_unit, do_loop, Cursor, step_up, step_down,
}

-- The capabilities give access to `n` bytes at `d` and at `s`.
abbrev pub Covers : Bounds → (d s n : ℕ) → Type 0
Covers caps d s n =
    (caps.dst_base ≤ d) × (d + n ≤ caps.dst_top) × (caps.src_base ≤ s) × (s + n ≤ caps.src_top)

-- One round of the loop, at addresses that do not wrap.
copy_unit_aligned :
    (caps : Bounds) (p unit dst src t d s : ℕ) (m : Memory)
    → Covers caps d s unit
    → add64 dst t ≡ d
    → add64 src t ≡ s
    → d % unit ≡ 0
    → s % unit ≡ 0
    → copy_unit caps p unit dst src t m ≡ ok (store_unit p unit d s m)
unfolding copy_unit
copy_unit_aligned caps p unit dst src t d s m within ed es dal sal = rw (ed, es) (ground arith)

module _ (body : ℕ → Memory → Run Memory) (last inc fuel index i : ℕ) {m m' : Memory}
    (next : add64 index inc ≡ i) (runs : body i m ≡ ok m') where
  do_loop_ends : i ≡ last → do_loop body last inc (suc fuel) index m ≡ ok m'
  unfolding do_loop
  do_loop_ends e = let hit : (i == last) ≡ true = ground arith in rw (next, runs, hit)

  do_loop_goes :
      i ≢ last → do_loop body last inc (suc fuel) index m ≡ do_loop body last inc fuel i m'
  unfolding do_loop
  do_loop_goes ne = let miss : (i == last) ≡ false = ground arith in rw (next, runs, miss, next)

module _ (caps : Bounds) (p : ℕ) (size : IsPointerSize p) (m : Memory) (d s n unit : ℕ)
    (within : Covers caps d s n) (pos : 0 < unit) (small : unit < word_mod) where
  aligned_next : (a k : ℕ) → (a + (k + unit)) % unit ≡ (a + k) % unit
  aligned_next a k = rw (← add_assoc) (add-mod_right (a + k) unit)

  -- What holds of all units up to the end of a loop holds of its first and of the rest.
  Units-first_up :
      (r k : ℕ) → Units p d s unit 0 k 0 (k + suc r * unit) → Units p d s unit 0 k 0 (k + unit)
  Units-first_up r k (inl e) = inl e
  Units-first_up r k (inr (ne, h)) =
      inr (ne, λ g big al sal low high. h g big al sal low (omega arith))

  Units-rest_up :
      (r k : ℕ)
      → Units p d s unit 0 k 0 (k + suc (suc r) * unit)
      → Units p d s unit 0 (k + unit) 0 (k + unit + suc r * unit)
  Units-rest_up r k (inl e) = inl e
  Units-rest_up r k (inr (ne, h)) =
      inr (ne, λ g big al sal low high. omega (arith, h g big al sal low (omega arith)))

  Units-first_down :
      (r lo : ℕ)
      → Units p d s unit (lo + suc r * unit) n lo n
      → Units p d s unit (lo + suc r * unit) n (lo + r * unit) n
  Units-first_down r lo (inl e) = inl e
  Units-first_down r lo (inr (ne, h)) =
      inr (ne, λ g big al sal low high. h g big al sal (omega arith) high)

  Units-rest_down :
      (r lo : ℕ)
      → Units p d s unit (lo + suc (suc r) * unit) n lo n
      → Units p d s unit (lo + suc r * unit) n lo n
  Units-rest_down r lo (inl e) = inl e
  Units-rest_down r lo (inr (ne, h)) =
      inr (ne, λ g big al sal low high. omega (arith, h g big al sal low high))

  -- One upward round, `t` being `b` bytes below zero.
  round_up :
      (k t b dst src : ℕ)
      → dst ≡ d + k + b
      → src ≡ s + k + b
      → dst < word_mod
      → src < word_mod
      → t + b ≡ word_mod
      → unit ≤ b
      → k + b ≤ n
      → (d + k) % unit ≡ 0
      → (s + k) % unit ≡ 0
      → (d < s) ⊎ (s + k + b ≤ d)
      → Units p d s unit 0 k 0 (k + unit)
      → copy_unit caps p unit dst src t (copied p m d s 0 k) ≡ ok (copied p m d s 0 (k + unit))
  round_up k t b dst src ed es ld ls et fits room dal sal apart units =
      copy_unit_aligned caps p unit dst src t (d + k) (s + k) (copied p m d s 0 k) (omega arith)
        (omega arith) (omega arith) dal sal
      ∙ ap ok (
          store_unit-copied p d s unit k 0 k 0 (k + unit) m size (omega arith) pos dal sal
            (omega arith) units)

  -- The upward loop with `suc r` units to go: it ends, traps nowhere and copies them all.
  loop_up :
      (r k fuel index dst src : ℕ)
      → dst ≡ d + k + suc r * unit
      → src ≡ s + k + suc r * unit
      → dst < word_mod
      → src < word_mod
      → add64 index unit + suc r * unit ≡ word_mod
      → k + suc r * unit ≤ n
      → (d + k) % unit ≡ 0
      → (s + k) % unit ≡ 0
      → (d < s) ⊎ (s + k + suc r * unit ≤ d)
      → Units p d s unit 0 k 0 (k + suc r * unit)
      → r < fuel
      → do_loop (copy_unit caps p unit dst src) (neg64 unit) unit fuel index (copied p m d s 0 k)
        ≡ ok (copied p m d s 0 (k + suc r * unit))
  loop_up r k zero index dst src ed es ld ls ei fits dal sal apart units room = absurd (omega arith)
  loop_up zero k (suc fuel) index dst src ed es ld ls ei fits dal sal apart units room =
      do_loop_ends (copy_unit caps p unit dst src) (neg64 unit) unit fuel index (add64 index unit)
        refl
        (round_up k (add64 index unit) unit dst src (omega arith) (omega arith) ld ls (omega arith)
          (omega arith) (omega arith) dal sal (grind arith) (Units-first_up 0 k units))
        (omega arith)
      ∙ ap (λ t. ok (copied p m d s 0 t)) (omega arith)
  loop_up (suc r) k (suc fuel) index dst src ed es ld ls ei fits dal sal apart units room =
      do_loop_goes (copy_unit caps p unit dst src) (neg64 unit) unit fuel index (add64 index unit)
        refl
        (round_up k (add64 index unit) (suc (suc r) * unit) dst src ed es ld ls ei (omega arith)
          fits dal sal apart (Units-first_up (suc r) k units))
        (omega arith)
      ∙ loop_up r (k + unit) fuel (add64 index unit) dst src (omega arith) (omega arith) ld ls
          (omega arith) (omega arith) (rw (aligned_next d k) dal) (rw (aligned_next s k) sal)
          (grind arith) (Units-rest_up r k units) (omega arith)
      ∙ ap (λ t. ok (copied p m d s 0 t)) (omega arith)

  -- One downward round, at offset `lo + r * unit` of the block.
  round_down :
      (r lo t dst src : ℕ)
      → dst ≡ d + lo
      → src ≡ s + lo
      → dst + suc r * unit ≤ word_mod
      → src + suc r * unit ≤ word_mod
      → t ≡ r * unit
      → dst % unit ≡ 0
      → src % unit ≡ 0
      → s < d
      → lo + suc r * unit ≤ n
      → Units p d s unit (lo + suc r * unit) n (lo + r * unit) n
      → copy_unit caps p unit dst src t (copied p m d s (lo + suc r * unit) n)
        ≡ ok (copied p m d s (lo + r * unit) n)
  round_down r lo t dst src ed es ld ls et dal sal apart fits units =
      copy_unit_aligned caps p unit dst src t (d + (lo + r * unit)) (s + (lo + r * unit))
        (copied p m d s (lo + suc r * unit) n) (omega arith) (omega arith) (omega arith)
        (at_start dst d ed ∙ dal) (at_start src s es ∙ sal)
      ∙ ap ok (
          store_unit-copied p d s unit (lo + r * unit) (lo + suc r * unit) n (lo + r * unit) n m
            size (omega arith) pos (at_start dst d ed ∙ dal) (at_start src s es ∙ sal) (omega arith)
            units)
    where
      at_start : (a b : ℕ) → a ≡ b + lo → (b + (lo + r * unit)) % unit ≡ a % unit
      at_start a b e = ap (λ t. t % unit) (omega arith) ∙ add-mul-mod_self_right a r unit

  -- The downward loop with `suc r` units to go.
  loop_down :
      (r lo fuel index dst src : ℕ)
      → dst ≡ d + lo
      → src ≡ s + lo
      → dst + suc r * unit < word_mod
      → src + suc r * unit < word_mod
      → index ≡ suc r * unit
      → dst % unit ≡ 0
      → src % unit ≡ 0
      → s < d
      → lo + suc r * unit ≤ n
      → Units p d s unit (lo + suc r * unit) n lo n
      → r < fuel
      → do_loop
          (copy_unit caps p unit dst src)
          0
          (neg64 unit)
          fuel
          index
          (copied p m d s (lo + suc r * unit) n)
        ≡ ok (copied p m d s lo n)
  loop_down r lo zero index dst src ed es ld ls ei dal sal apart fits units room =
      absurd (omega arith)
  loop_down zero lo (suc fuel) index dst src ed es ld ls ei dal sal apart fits units room =
      do_loop_ends (copy_unit caps p unit dst src) 0 (neg64 unit) fuel index 0 (omega arith)
        (round_down 0 lo 0 dst src ed es (omega arith) (omega arith) (omega arith) dal sal apart
          fits (Units-first_down 0 lo units))
        refl
      ∙ ap (λ t. ok (copied p m d s t n)) (omega arith)
  loop_down (suc r) lo (suc fuel) index dst src ed es ld ls ei dal sal apart fits units room =
      do_loop_goes (copy_unit caps p unit dst src) 0 (neg64 unit) fuel index (suc r * unit)
        (omega arith)
        (round_down (suc r) lo (suc r * unit) dst src ed es (omega arith) (omega arith) refl dal sal
          apart fits (Units-first_down (suc r) lo units))
        (omega arith)
      ∙ loop_down r lo fuel (suc r * unit) dst src ed es (omega arith) (omega arith) refl dal sal
          apart (omega arith) (Units-rest_down r lo units) (omega arith)

module _ (p : ℕ) (m : Memory) (d s : ℕ) where
  -- The cursor after `k` bytes from the front.
  abbrev pub up_to : (k len : ℕ) → Cursor
  up_to k len = record { dst = d + k; src = s + k; length = len; mem = copied p m d s 0 k }

  -- The cursor with the first `k` bytes of `n` still to copy.
  abbrev pub down_to : (n k len : ℕ) → Cursor
  down_to n k len = record { dst = d + k; src = s + k; length = len; mem = copied p m d s k n }

  pub step_up-up_to :
      (caps : Bounds)
      → IsPointerSize p
      → (unit r k n len : ℕ) → Covers caps d s n
      → k + suc r * unit ≤ n
      → 0 < unit
      → unit < word_mod
      → d + k + suc r * unit < word_mod
      → s + k + suc r * unit < word_mod
      → (d + k) % unit ≡ 0
      → (s + k) % unit ≡ 0
      → (d < s) ⊎ (s + k + suc r * unit ≤ d)
      → Units p d s unit 0 k 0 (k + suc r * unit)
      → step_up caps p unit (suc r * unit) (up_to k len) ≡ ok (up_to (k + suc r * unit) len)
  unfolding step_up
  step_up-up_to caps size unit r k n len within room pos small fd fs dal sal apart units =
      rw
        (loop_up caps p size m d s n unit within pos small r k (suc r * unit + 1)
          (sub64 (neg64 (suc r * unit)) unit) (add64 (d + k) (suc r * unit))
          (add64 (s + k) (suc r * unit)) (omega arith) (omega arith) (omega arith) (omega arith)
          (omega arith) room dal sal apart units (grind arith))
        (ground arith)

  pub step_down-down_to :
      (caps : Bounds)
      → IsPointerSize p
      → (unit r lo n len : ℕ) → Covers caps d s n
      → 0 < unit
      → unit < word_mod
      → d + n < word_mod
      → s + n < word_mod
      → (d + lo) % unit ≡ 0
      → (s + lo) % unit ≡ 0
      → s < d
      → lo + suc r * unit ≤ n
      → Units p d s unit (lo + suc r * unit) n lo n
      → step_down caps p unit (suc r * unit) (down_to n (lo + suc r * unit) len)
        ≡ ok (down_to n lo len)
  unfolding step_down
  step_down-down_to caps size unit r lo n len within pos small fd fs dal sal apart fits units =
      rw
        (loop_down caps p size m d s n unit within pos small r lo (suc r * unit + 1)
          (sub64 (sub64 (suc r * unit) unit) (neg64 unit))
          (sub64 (d + (lo + suc r * unit)) (suc r * unit))
          (sub64 (s + (lo + suc r * unit)) (suc r * unit)) (omega arith) (omega arith) (omega arith)
          (omega arith) (omega arith) (ap (λ t. t % unit) (omega arith) ∙ dal)
          (ap (λ t. t % unit) (omega arith) ∙ sal) apart fits units (grind arith))
        (ground arith)
