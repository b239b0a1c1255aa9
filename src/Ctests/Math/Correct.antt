-- ===== src/Ctests/Math/Correct.antt =====
-- clang_purecap_uintcapmath.c: no assertion of the test fails.
use cheritest.Common.{
  ℕ, ◌+◌, ◌-◌, ◌*◌, ◌/◌, ◌%◌, ◌^◌, ◌≡◌, refl, Bool, true, false, not, ◌&&◌, ◌==◌, ltb, leb,
  if◌then◌else◌, List, [], ◌∷◌, ◌++◌, bit_and, bit_or, bit_xor,
}
use cheritest.Ctests.Math.{
  Operators, step_asserts, compare_asserts, logic_asserts, sum_asserts, shift_asserts, bit_asserts,
  product_asserts, choice_asserts, minus_asserts, uintcapmath,
}

-- The operators of C on an integer type of 64 bits, signed or not: operands and results that are
-- below 2 ^ 63 are the same numbers in both. The second operand of a shift is below 64, that of a
-- division is not zero.
pub record IsInt64 (o : Operators) : Type 0 where
  pub value-of_int : (n : ℕ) → ltb n (2 ^ 31) ≡ true → o.value (o.of_int n) ≡ n
  pub value-of_negative :
      (n : ℕ) → ltb 0 n ≡ true → leb n (2 ^ 31) ≡ true → o.value (o.of_negative n) ≡ 2 ^ 64 - n
  pub value-add :
      (a b : o.Int)
      → ltb (o.value a + o.value b) (2 ^ 63) ≡ true
      → o.value (o.add a b) ≡ o.value a + o.value b
  pub value-sub :
      (a b : o.Int)
      → ltb (o.value a) (2 ^ 63) ≡ true
      → leb (o.value b) (o.value a) ≡ true
      → o.value (o.sub a b) ≡ o.value a - o.value b
  pub value-mul :
      (a b : o.Int)
      → ltb (o.value a) (2 ^ 63) ≡ true
      → ltb (o.value b) (2 ^ 63) ≡ true
      → ltb (o.value a * o.value b) (2 ^ 63) ≡ true
      → o.value (o.mul a b) ≡ o.value a * o.value b
  pub value-div :
      (a b : o.Int)
      → ltb (o.value a) (2 ^ 63) ≡ true
      → ltb (o.value b) (2 ^ 63) ≡ true
      → ltb 0 (o.value b) ≡ true
      → o.value (o.div a b) ≡ o.value a / o.value b
  pub value-mod :
      (a b : o.Int)
      → ltb (o.value a) (2 ^ 63) ≡ true
      → ltb (o.value b) (2 ^ 63) ≡ true
      → ltb 0 (o.value b) ≡ true
      → o.value (o.mod_ a b) ≡ o.value a % o.value b
  pub value-shift_left :
      (a b : o.Int)
      → ltb (o.value b) 64 ≡ true
      → ltb (o.value a * 2 ^ o.value b) (2 ^ 63) ≡ true
      → o.value (o.shift_left a b) ≡ o.value a * 2 ^ o.value b
  pub value-shift_right :
      (a b : o.Int)
      → ltb (o.value b) 64 ≡ true
      → ltb (o.value a) (2 ^ 63) ≡ true
      → o.value (o.shift_right a b) ≡ o.value a / 2 ^ o.value b
  pub value-and : (a b : o.Int) → o.value (o.and_ a b) ≡ bit_and (o.value a) (o.value b)
  pub value-or : (a b : o.Int) → o.value (o.or_ a b) ≡ bit_or (o.value a) (o.value b)
  pub value-xor : (a b : o.Int) → o.value (o.xor_ a b) ≡ bit_xor (o.value a) (o.value b)
  pub value-complement : (a : o.Int) → o.value (o.complement a) ≡ 2 ^ 64 - 1 - o.value a
  pub value-neg :
      (a : o.Int)
      → ltb 0 (o.value a) ≡ true
      → (o.value a == 2 ^ 63) ≡ false
      → o.value (o.neg a) ≡ 2 ^ 64 - o.value a
  pub lt-ltb :
      (a b : o.Int)
      → ltb (o.value a) (2 ^ 63) ≡ true
      → ltb (o.value b) (2 ^ 63) ≡ true
      → o.lt a b ≡ ltb (o.value a) (o.value b)
  pub le-leb :
      (a b : o.Int)
      → ltb (o.value a) (2 ^ 63) ≡ true
      → ltb (o.value b) (2 ^ 63) ≡ true
      → o.le a b ≡ leb (o.value a) (o.value b)
  pub eq-value : (a b : o.Int) → o.eq a b ≡ (o.value a == o.value b)
  pub is_true-value : (a : o.Int) → o.is_true a ≡ not (o.value a == 0)

-- No assertion fails.
abbrev pub passes : List Bool → Bool
passes [] = true
passes (b ∷ bs) = b && passes bs

passes-append : (bs cs : List Bool) → passes (bs ++ cs) ≡ (passes bs && passes cs)
passes-append [] cs = refl
passes-append (true ∷ bs) cs = passes-append bs cs
passes-append (false ∷ bs) cs = refl

module _ (o : Operators) (u : IsInt64 o) where
  down_twice : o.value (o.sub (o.sub (o.of_int 100) (o.of_int 1)) (o.of_int 1)) ≡ 98
  down_twice = simp (u.value-of_int, u.value-sub)

  up_twice : o.value (o.add (o.add (o.of_int 100) (o.of_int 1)) (o.of_int 1)) ≡ 102
  up_twice = simp (u.value-of_int, u.value-add)

  step_lem : passes (step_asserts o) ≡ true
  unfolding step_asserts
  step_lem = simp (down_twice, up_twice, u.value-of_int, u.value-add, u.value-sub, u.lt-ltb)

  compare_lem : passes (compare_asserts o) ≡ true
  unfolding compare_asserts
  compare_lem = simp (u.value-of_int, u.lt-ltb, u.le-leb, u.eq-value)

  logic_lem : passes (logic_asserts o) ≡ true
  unfolding logic_asserts
  logic_lem = simp (u.value-of_int, u.is_true-value)

  sum_lem : passes (sum_asserts o) ≡ true
  unfolding sum_asserts
  sum_lem = simp (u.value-of_int, u.value-add, u.value-sub)

  shift_lem : (real : Bool) → passes (shift_asserts o real) ≡ true
  unfolding shift_asserts
  shift_lem true = simp (u.value-of_int, u.value-shift_left, u.value-shift_right)
  shift_lem false = simp (u.value-of_int, u.value-shift_left, u.value-shift_right)

  bit_lem : (real : Bool) → passes (bit_asserts o real) ≡ true
  unfolding bit_asserts
  bit_lem true =
      simp (u.value-of_int, u.value-sub, u.value-complement, u.value-and, u.value-or, u.value-xor)
  bit_lem false = simp (u.value-of_int, u.value-and, u.value-or, u.value-xor)

  product_lem : passes (product_asserts o) ≡ true
  unfolding product_asserts
  product_lem = simp (u.value-of_int, u.value-mul, u.value-div, u.value-mod)

  choice_lem : passes (choice_asserts o) ≡ true
  unfolding choice_asserts
  choice_lem = simp (u.value-of_int, u.is_true-value)

  minus_lem : passes (minus_asserts o) ≡ true
  unfolding minus_asserts
  minus_lem = simp (u.value-of_int, u.value-of_negative, u.value-neg)

  signed_lem : (signed : Bool) → passes (if signed then minus_asserts o else []) ≡ true
  signed_lem true = minus_lem
  signed_lem false = refl

  -- On every integer type of 64 bits, signed or not, no assertion of the test fails, with the cases
  -- for real integers and without, and with those for signed types and without.
  pub uintcapmath-passes : (real signed : Bool) → passes (uintcapmath o real signed) ≡ true
  unfolding uintcapmath
  uintcapmath-passes real signed = simp (
    passes-append,
    step_lem,
    compare_lem,
    logic_lem,
    sum_lem,
    shift_lem real,
    bit_lem real,
    product_lem,
    choice_lem,
    signed_lem signed,
  )
