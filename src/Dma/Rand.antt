-- ===== src/Dma/Rand.antt =====
-- fuzz_dma/dma_test_generation.c: the generator's own random numbers. `next` is an
-- `unsigned long` of 64 bits.
use cheritest.Common.{
  ℕ, zero, suc, ◌+◌, ◌*◌, ◌/◌, ◌%◌, ◌^◌, ◌≤◌, ◌<◌, ◌≡◌, ◌≢◌, refl, Bool, true, false, not, ◌&&◌,
  ◌==◌, ltb, lt→ltb, ap, ◌∙◌, if◌then◌else◌, arith,
}
use mathlib.Core.Path.{subst}

unfoldable pub next_state : ℕ → ℕ
next_state next = (next * 1103515245 + 12345) % 2 ^ 64

-- `(unsigned)(next/65536) % 32768`
unfoldable pub draw : ℕ → ℕ
draw next = next / 65536 % 2 ^ 32 % 32768

-- The value and the new `next`.
unfoldable pub myrand : ℕ → ℕ × ℕ
myrand next = let next' = next_state next in (draw next', next')

-- `unsigned seed` is widened.
unfoldable pub mysrand : ℕ → ℕ
mysrand seed = seed % 2 ^ 32

pub draw-lt : (next : ℕ) → draw next < 32768
unfolding draw
draw-lt next = omega arith

-- What the low 31 bits of `next` become: a draw depends on them alone.
abbrev low_step : ℕ → ℕ
low_step x = (x * 1103515245 + 12345) % 2 ^ 31

draw_zero : (next : ℕ) → draw next ≡ 0 → next % 2 ^ 31 < 65536
unfolding draw
draw_zero next h = omega arith

low_next_state : (next : ℕ) → next_state next % 2 ^ 31 ≡ low_step (next % 2 ^ 31)
unfolding next_state
low_next_state next = omega arith

-- No low part below 65536 leads to two more: checked for each.
escapes : ℕ → Bool
escapes x = not (ltb (low_step x) 65536 && ltb (low_step (low_step x)) 65536)

all_escape : ℕ → Bool
all_escape zero = true
all_escape (suc n) = escapes n && all_escape n

all_escape_sound : (n x : ℕ) → all_escape n ≡ true → x < n → escapes x ≡ true
unfolding all_escape
all_escape_sound zero x h lt = absurd (omega arith)
all_escape_sound (suc n) x h lt = ground (arith, all_escape_sound n x)

escape_table : all_escape 65536 ≡ true
unfolding all_escape escapes
escape_table = refl

-- The generator never returns zero three times in a row, from any state.
pub draw_zeros :
    (next : ℕ)
    → draw (next_state next) ≡ 0
    → draw (next_state (next_state next)) ≡ 0
    → draw (next_state (next_state (next_state next))) ≢ 0
draw_zeros next a b c = cc (contradiction, escaped)
  where
    x : ℕ
    x = next_state next % 2 ^ 31

    escaped : escapes x ≡ true
    escaped = all_escape_sound 65536 x escape_table (draw_zero (next_state next) a)

    second : low_step x < 65536
    second = rw (low_next_state (next_state next)) at (draw_zero (next_state (next_state next)) b)

    third : low_step (low_step x) < 65536
    third =
        subst (λ t. t < 65536)
          (low_next_state (next_state (next_state next))
            ∙ ap (λ t. low_step t) (low_next_state (next_state next)))
          (draw_zero (next_state (next_state (next_state next))) c)

    contradiction : escapes x ≡ false
    contradiction = unfold escapes in rw (lt→ltb _ _ second, lt→ltb _ _ third)

-- How many zeros come next.
pub zeros_ahead : ℕ → ℕ
zeros_ahead next =
    if draw (next_state next) == 0
    then (if draw (next_state (next_state next)) == 0 then 2 else 1)
    else 0

pub zeros_ahead-le : (next : ℕ) → zeros_ahead next ≤ 2
unfolding zeros_ahead
zeros_ahead-le next = ground arith

pub zeros_ahead-next_state :
    (next : ℕ) → draw (next_state next) ≡ 0 → zeros_ahead (next_state next) + 1 ≡ zeros_ahead next
unfolding zeros_ahead
zeros_ahead-next_state next h = ground (arith, draw_zeros next)
