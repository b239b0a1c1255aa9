-- ===== src/Dma/Structure/Bound.antt =====
-- Why the loop of `random_dma_program_structure` ends: what the two comparisons allow, a measure
-- that falls in every round, and a bound on the length that it counts.
use cheritest.Common.{
  ℕ, suc, ◌+◌, ◌-◌, ◌*◌, ◌≤◌, ◌<◌, ◌≡◌, ◌≢◌, ◌⊎◌, ap, sym, ◌∙◌, ◌==◌, ltb, if◌then◌else◌, arith,
}
use cheritest.Common.Int.{pos, negsuc, sub_ℕ, ◌*ℤ◌}
use cheritest.Dma.Rand.{draw, next_state, zeros_ahead, zeros_ahead-le, zeros_ahead-next_state}
use cheritest.Dma.Structure.{NodeType, dmapnt_loop, dmapnt_seq, dmapnt_op, choose}

-- A loop is chosen only while the program is short.
choose_loop_lem : (l s p : ℕ) → choose l s p ≡ dmapnt_loop → l < 12
unfolding choose ◌*ℤ◌
choose_loop_lem l s p h = ground arith

mul_pos : (a b : ℕ) → pos a *ℤ pos b ≡ pos (a * b)
unfolding ◌*ℤ◌
mul_pos a b = ground arith

mul_neg : (a b : ℕ) → 0 < a → pos a *ℤ negsuc b ≡ negsuc (a * suc b - 1)
unfolding ◌*ℤ◌
mul_neg a b h = let some : 0 < a * suc b = grind arith in ground arith

-- With more than ten spaces a short program gets no more of them.
choose_crowded : (l s p : ℕ) → l < 12 → 11 ≤ s → choose l s p ≢ dmapnt_seq
unfolding choose
choose_crowded l s p short many h =
    let room : sub_ℕ 12 l ≡ pos (12 - l) = ground arith in
    let over : sub_ℕ 10 s ≡ negsuc (s - 11) = ground arith in
    absurd (
      ground (
        arith,
        room,
        over,
        mul_pos 32767 (12 - l),
        mul_neg (32767 * (12 - l)) (s - 11) (omega arith),
      ))

choose_past : (l s p : ℕ) → 12 < l → choose l s p ≡ dmapnt_op
unfolding choose ◌*ℤ◌
choose_past l s p long = ground arith

choose_at_limit : (s p : ℕ) → choose 12 s p ≡ dmapnt_seq → p ≡ 0
unfolding choose ◌*ℤ◌
choose_at_limit s p h = ground arith

-- A sequence is chosen only while the program is short and the spaces are few, or on the draw 0
-- at the limit itself.
choose_seq_lem :
    (l s p : ℕ) → choose l s p ≡ dmapnt_seq → ((l < 12) × (s < 11)) ⊎ ((l ≡ 12) × (p ≡ 0))
choose_seq_lem l s p h = grind (
  arith,
  choose_crowded l s p,
  choose_past l s p,
  λ (e : l ≡ 12). choose_at_limit s p (ap (λ t. choose t s p) (sym e) ∙ h),
)

-- What holds of the length, the spaces and the generator in every state of the loop.
pub record Bounded (l s next : ℕ) : Type 0 where
  pub short : l < 12 → s ≤ 11
  pub at_limit : l ≡ 12 → s + zeros_ahead next ≤ 13
  pub past : 12 < l → l + s ≤ 25

-- The rounds that are left, at most.
unfoldable pub rounds_left : (l s next : ℕ) → ℕ
rounds_left l s next =
    if ltb l 12
    then (12 - l) * 2 + (11 - s) + 16
    else (if l == 12 then s + 2 * zeros_ahead next + 1 else s)

abbrev pub length_after : NodeType → ℕ → ℕ
length_after dmapnt_op l = l + 1
length_after dmapnt_loop l = l + 2
length_after dmapnt_seq l = l

abbrev pub spaces_after : NodeType → ℕ → ℕ
spaces_after dmapnt_op s = s - 1
spaces_after dmapnt_loop s = s
spaces_after dmapnt_seq s = s + 1

abbrev Falls : (l s next : ℕ) → NodeType → Type 0
Falls l s next k =
    Bounded (length_after k l) (spaces_after k s) (next_state next)
    × (rounds_left (length_after k l) (spaces_after k s) (next_state next) < rounds_left l s next)

pub round_falls :
    (l s next : ℕ) (k : NodeType)
    → choose l s (draw (next_state next)) ≡ k
    → 0 < s
    → Bounded l s next
    → Falls l s next k
unfolding rounds_left
round_falls l s next dmapnt_op e some_left b = (
  record {
    short = λ h. ground (arith, b.short);
    at_limit = λ h. ground (arith, b.short, zeros_ahead-le (next_state next));
    past = λ h. ground (arith, b.short, b.at_limit, b.past);
  },
  ground (arith, b.short, b.at_limit, zeros_ahead-le (next_state next)),
)
round_falls l s next dmapnt_loop e some_left b =
    let short = choose_loop_lem l s (draw (next_state next)) e in
    (
      record {
        short = λ h. ground (arith, b.short);
        at_limit = λ h. ground (arith, b.short, zeros_ahead-le (next_state next));
        past = λ h. ground (arith, b.short);
      },
      ground (arith, b.short, zeros_ahead-le (next_state next)),
    )
round_falls l s next dmapnt_seq e some_left b =
    let why = choose_seq_lem l s (draw (next_state next)) e in
    (
      record {
        short = λ h. ground (arith, b.short);
        at_limit = λ h. ground (arith, b.at_limit, zeros_ahead-next_state next);
        past = λ h. ground (arith, b.short);
      },
      ground (arith, b.short, b.at_limit, zeros_ahead-next_state next),
    )
