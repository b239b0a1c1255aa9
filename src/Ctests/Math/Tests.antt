-- ===== src/Ctests/Math/Tests.antt =====
-- The arithmetic test on signed and unsigned numbers of 64 bits.
use cheritest.Common.{
  ℕ, ◌+◌, ◌-◌, ◌*◌, ◌/◌, ◌%◌, ◌^◌, ◌≡◌, refl, Bool, true, false, not, ◌==◌, ltb, leb, if◌then◌else◌,
  bit_and, bit_or, bit_xor, arith,
}
use cheritest.Ctests.Math.{Operators, uintcapmath}
use cheritest.Ctests.Math.Correct.{IsInt64, passes, uintcapmath-passes}

-- The operators on numbers of 64 bits.
abbrev words : Operators
words = record {
  Int = ℕ;
  of_int = λ n. n % 2 ^ 64;
  of_negative = λ n. (2 ^ 64 - n) % 2 ^ 64;
  value = λ n. n;
  add = λ a b. (a + b) % 2 ^ 64;
  sub = λ a b. (a + 2 ^ 64 - b) % 2 ^ 64;
  mul = λ a b. a * b % 2 ^ 64;
  div = λ a b. a / b;
  mod_ = λ a b. a % b;
  shift_left = λ a b. a * 2 ^ b % 2 ^ 64;
  shift_right = λ a b. a / 2 ^ b;
  and_ = bit_and;
  or_ = bit_or;
  xor_ = bit_xor;
  complement = λ a. 2 ^ 64 - 1 - a;
  neg = λ a. (2 ^ 64 - a) % 2 ^ 64;
  lt = ltb;
  le = leb;
  eq = λ a b. a == b;
  is_true = λ a. not (a == 0);
}

-- The signed ones in two's complement: a number from 2 ^ 63 on stands for that number less 2 ^ 64.
abbrev is_negative : ℕ → Bool
is_negative a = leb (2 ^ 63) a

abbrev magnitude : ℕ → ℕ
magnitude a = if is_negative a then 2 ^ 64 - a else a

abbrev with_sign : Bool → ℕ → ℕ
with_sign minus n = if minus then (2 ^ 64 - n) % 2 ^ 64 else n

-- The order of the signed numbers is that of the numbers with the sign bit turned over.
abbrev biased : ℕ → ℕ
biased a = (a + 2 ^ 63) % 2 ^ 64

abbrev signed_words : Operators
signed_words = record words {
  div = λ a b.
      with_sign (if is_negative a then not (is_negative b) else is_negative b)
        (magnitude a / magnitude b);
  mod_ = λ a b. with_sign (is_negative a) (magnitude a % magnitude b);
  shift_right = λ a b. if is_negative a then 2 ^ 64 - 1 - (2 ^ 64 - 1 - a) / 2 ^ b else a / 2 ^ b;
  lt = λ a b. ltb (biased a) (biased b);
  le = λ a b. leb (biased a) (biased b);
}

words-IsInt64 : IsInt64 words
words-IsInt64 = record {
  value-of_int = λ n h. ground arith;
  value-of_negative = λ n h k. ground arith;
  value-add = λ a b h. ground arith;
  value-sub = λ a b h k. ground arith;
  value-mul = λ a b h k l. ground arith;
  value-div = λ a b h k l. refl;
  value-mod = λ a b h k l. refl;
  value-shift_left = λ a b h k. ground arith;
  value-shift_right = λ a b h k. refl;
  value-and = λ a b. refl;
  value-or = λ a b. refl;
  value-xor = λ a b. refl;
  value-complement = λ a. refl;
  value-neg = λ a h k. ground arith;
  lt-ltb = λ a b h k. refl;
  le-leb = λ a b h k. refl;
  eq-value = λ a b. refl;
  is_true-value = λ a. refl;
}

signed_words-IsInt64 : IsInt64 signed_words
signed_words-IsInt64 = record {
  value-of_int = λ n h. ground arith;
  value-of_negative = λ n h k. ground arith;
  value-add = λ a b h. ground arith;
  value-sub = λ a b h k. ground arith;
  value-mul = λ a b h k l. ground arith;
  value-div = λ a b h k l. ground arith;
  value-mod = λ a b h k l. ground arith;
  value-shift_left = λ a b h k. ground arith;
  value-shift_right = λ a b h k. ground arith;
  value-and = λ a b. refl;
  value-or = λ a b. refl;
  value-xor = λ a b. refl;
  value-complement = λ a. refl;
  value-neg = λ a h k. ground arith;
  lt-ltb = λ a b h k. ground arith;
  le-leb = λ a b h k. ground arith;
  eq-value = λ a b. refl;
  is_true-value = λ a. refl;
}

signed_passes : passes (uintcapmath signed_words true true) ≡ true
signed_passes = uintcapmath-passes signed_words signed_words-IsInt64 true true

unsigned_passes : passes (uintcapmath words true false) ≡ true
unsigned_passes = uintcapmath-passes words words-IsInt64 true false
