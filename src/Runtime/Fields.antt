-- ===== src/Runtime/Fields.antt =====
-- The operand fields of an instruction: `getImm`, `getSImm` and `signExtend` of test_runtime.c.
use cheritest.Common.{
  Run, ok, fault, leb, inl, inr, lt→ltb, ◌&&◌, ℕ, ◌+◌, ◌-◌, ◌*◌, ◌/◌, ◌%◌, ◌^◌, ◌≤◌, ◌<◌, ◌≡◌, ap,
  ◌∙◌, ltb, if◌then◌else◌, arith, bit_and,
}
use cheritest.Common.Fields.{
  le_or_lt, read_field, pow-add, two_pow_pos, scaled, quotient, quotient_less_one,
}
use native.Mathlib.Nat.{
  mod-lt, mul-le-mul_left, mul-le-mul_right, mul-div_cancel, mul-lt-mul_of_pos_right,
}
use cheritest.Runtime.{get_imm, sign_extend, shift_right_signed}

-- 32 ones, shifted down.
ones : (s : ℕ) → s ≤ 32 → 4294967295 / 2 ^ s ≡ 2 ^ (32 - s) - 1
ones s h =
    ap (λ n. (n - 1) / 2 ^ s) (whole ∙ pow-add (32 - s) s)
    ∙ quotient_less_one (2 ^ (32 - s)) (2 ^ s) (two_pow_pos (32 - s)) (two_pow_pos s)
  where
    whole : 2 ^ 32 ≡ 2 ^ (32 - s + s)
    whole = ap (λ n. 2 ^ n) {x = 32} (omega arith)

-- getImm, with its two shifts worked out.
abbrev get_imm_at : (instr low shift : ℕ) → Run ℕ
get_imm_at instr low shift =
    if ltb shift 32 && ltb low 32
    then ok (bit_and instr (4294967295 / 2 ^ shift * 2 ^ low % 2 ^ 32) / 2 ^ low)
    else fault

-- With `cap_size` bytes to a capability, 32 at most, and a length from 1 to `cap_size` that is no
-- longer than bit `start` allows, getImm shifts the instruction of 32 bits down to the lowest bit of
-- the field of `len` bits that ends at bit `start`, and keeps 32 - (`cap_size` - `len`) bits. These
-- are `len` bits if `cap_size` is 32, and 32 - `cap_size` more above them otherwise, which are zero
-- where the instruction has no more bits.
pub get_imm_field :
    (cap_size instr start len : ℕ)
    → cap_size ≤ 32
    → 0 < len
    → len ≤ cap_size
    → len ≤ start + 1
    → start < 32
    → instr < 2 ^ 32
    → get_imm cap_size instr start len
      ≡ ok (instr / 2 ^ (start + 1 - len) % 2 ^ (32 - (cap_size - len)))
unfolding get_imm
get_imm_field c instr start len h0 h1 h2 h3 h4 h5 =
    ap (get_imm_at instr (start + 1 - len)) {x = (c + 2 ^ 64 - len) % 2 ^ 64} {y = c - len}
      (omega arith)
    ∙ in_range
  where
    in_range :
        get_imm_at instr (start + 1 - len) (c - len)
        ≡ ok (instr / 2 ^ (start + 1 - len) % 2 ^ (32 - (c - len)))
    in_range =
        rw (lt→ltb (c - len) 32 (omega arith), lt→ltb (start + 1 - len) 32 (omega arith))
          (ap ok (
            ap (λ n. bit_and instr (n * 2 ^ (start + 1 - len) % 2 ^ 32) / 2 ^ (start + 1 - len))
              (ones (c - len) (omega arith))
            ∙ read_field (32 - (c - len)) (start + 1 - len) instr (omega arith) h5))

-- The value of the low `size` bits in two's complement, in 64 bits.
abbrev pub twos_complement : (v size : ℕ) → ℕ
twos_complement v size = if ltb v (2 ^ (size - 1)) then v else 2 ^ 64 - 2 ^ size + v

split : (n a : ℕ) → a ≤ n → 2 ^ n ≡ 2 ^ a * 2 ^ (n - a)
split n a h = ap (λ m. 2 ^ m) {x = n} {y = a + (n - a)} (omega arith) ∙ pow-add a (n - a)

-- What is above a multiple.
rest : (v s p : ℕ) → 0 < s → v < p → 2 ^ 64 ≡ p * s → 2 ^ 64 - 1 - v * s ≡ s - 1 + (p - 1 - v) * s
rest v s p h l e = omega (arith, e, product)
  where
    product : p * s ≡ v * s + s + (p - 1 - v) * s
    product = ap (λ n. n * s) {x = p} {y = v + 1 + (p - 1 - v)} (omega arith) ∙ grind arith

-- A field at the top of a register, shifted down with its sign.
shifted_back :
    (v size : ℕ)
    → 0 < size
    → size ≤ 64
    → v < 2 ^ size
    → shift_right_signed (v * 2 ^ (64 - size)) (64 - size) ≡ twos_complement v size
shifted_back v size h k l =
    by_half (2 ^ (64 - size)) (2 ^ (size - 1)) (2 ^ size) (two_pow_pos (64 - size)) l
      (split 64 size k)
      (split 63 (size - 1) (omega arith) ∙ ap (λ n. 2 ^ (size - 1) * 2 ^ n) (omega arith))
  where
    by_half :
        (s half p : ℕ)
        → 0 < s
        → v < p
        → 2 ^ 64 ≡ p * s
        → 2 ^ 63 ≡ half * s
        → (if leb (2 ^ 63) (v * s) then 2 ^ 64 - 1 - (2 ^ 64 - 1 - v * s) / s else v * s / s)
          ≡ (if ltb v half then v else 2 ^ 64 - p + v)
    by_half s half p h l e e' = elim (le_or_lt half v) [
      | inl le ↦ ground (
        arith,
        e,
        e',
        mul-le-mul_right s le,
        mul-le-mul_left p h,
        quotient (2 ^ 64 - 1 - v * s) (p - 1 - v) (s - 1) s (rest v s p h l e) (omega arith),
      )
      | inr lt ↦ ground (arith, e, e', mul-lt-mul_of_pos_right lt h, mul-div_cancel v h)
    ]

pub sign_extend_value :
    (val size : ℕ)
    → 0 < size
    → size ≤ 64
    → sign_extend val size ≡ twos_complement (val % 2 ^ size) size
unfolding sign_extend
sign_extend_value val size h k =
    ap (λ n. shift_right_signed n (64 - size))
      (ap (λ n. val * 2 ^ (64 - size) % n) (split 64 size k)
        ∙ scaled val (2 ^ size) (2 ^ (64 - size)) (two_pow_pos size) (two_pow_pos (64 - size)))
    ∙ shifted_back (val % 2 ^ size) size h k (mod-lt val (two_pow_pos size))
