-- ===== src/Ctests/Math.antt =====
-- cheri-c-tests/clang-purecap/clang_purecap_uintcapmath.c: arithmetic on an integer type, in the
-- variants uintcapmath, intcapmath, uint64math and int64math. The operators of the compiler are a
-- parameter; an operand of type `int` is converted to the type first.
pub mod Correct
pub mod Tests
use cheritest.Common.{
  ℕ, ◌+◌, ◌-◌, ◌*◌, ◌/◌, ◌%◌, ◌^◌, ◌<◌, ◌≡◌, refl, Bool, true, false, not, ◌&&◌, ◌||◌, ◌==◌, ltb,
  leb, if◌then◌else◌, List, [], ◌∷◌, ◌++◌, bit_and, bit_or, bit_xor, arith, ◌∙◌,
}

-- The operators of _TEST_INT_TYPE, the conversions from an `int` that is not negative and from one
-- that is, minus the number, and the one to 64 bits.
pub record Operators : Type 1 where
  pub Int : Type 0
  pub of_int : ℕ → Int
  pub of_negative : ℕ → Int
  pub value : Int → ℕ
  pub add : Int → Int → Int
  pub sub : Int → Int → Int
  pub mul : Int → Int → Int
  pub div : Int → Int → Int
  pub mod_ : Int → Int → Int
  pub shift_left : Int → Int → Int
  pub shift_right : Int → Int → Int
  pub and_ : Int → Int → Int
  pub or_ : Int → Int → Int
  pub xor_ : Int → Int → Int
  pub complement : Int → Int
  pub neg : Int → Int
  pub lt : Int → Int → Bool
  pub le : Int → Int → Bool
  pub eq : Int → Int → Bool
  pub is_true : Int → Bool

module _ (o : Operators) where
  open o use {
    Int, of_int, of_negative, value, add, sub, mul, div, mod_, shift_left, shift_right, and_, or_,
    xor_, complement, neg, lt, le, eq, is_true,
  }

  -- assert_eq(target, n), which compares 64 bits.
  abbrev pub assert_eq : Int → ℕ → Bool
  assert_eq a n = value a == n

  abbrev pub zero : Int
  zero = of_int 0

  abbrev pub one : Int
  one = of_int 1

  abbrev pub onehundred : Int
  onehundred = of_int 100

  abbrev pub twofivesix : Int
  twofivesix = of_int 256

  -- The values of `target` after each step down from 100, and each step up from it.
  unfoldable pub step_asserts : List Bool
  step_asserts =
      let start = of_int 100 in
      let down = sub start one in
      let down2 = sub down one in
      let up = add onehundred one in
      let up2 = add up one in
      assert_eq start 100
      ∷ assert_eq down 99
      ∷ lt down onehundred
      ∷ assert_eq down2 98
      ∷ lt down2 (of_int 99)
      ∷ assert_eq onehundred 100
      ∷ assert_eq up 101
      ∷ assert_eq up2 102
      ∷ lt onehundred up2
      ∷ []

  unfoldable pub compare_asserts : List Bool
  compare_asserts =
      lt onehundred (of_int 1000)
      ∷ lt (of_int 1) onehundred
      ∷ le onehundred (of_int 1000)
      ∷ le (of_int 1) onehundred
      ∷ le onehundred twofivesix
      ∷ le (of_int 1) one
      ∷ le one (of_int 2)
      ∷ le onehundred twofivesix
      ∷ not (eq (of_int 2) one)
      ∷ not (eq one (of_int 3))
      ∷ not (eq onehundred twofivesix)
      ∷ []

  -- The operands of `!`, `&&` and `||` that are literals are not zero, except where 0 stands.
  unfoldable pub logic_asserts : List Bool
  logic_asserts =
      not (is_true zero)
      ∷ (is_true one && true)
      ∷ (true && is_true onehundred)
      ∷ (is_true one && is_true twofivesix)
      ∷ (is_true one || true)
      ∷ (false || is_true one)
      ∷ (is_true zero || is_true onehundred)
      ∷ []

  unfoldable pub sum_asserts : List Bool
  sum_asserts =
      assert_eq (add onehundred (of_int 2)) 102
      ∷ assert_eq (add (of_int 3) onehundred) 103
      ∷ assert_eq (add one onehundred) 101
      ∷ assert_eq (add onehundred (of_int 5)) 105
      ∷ assert_eq (sub onehundred (of_int 2)) 98
      ∷ assert_eq (sub (of_int 105) onehundred) 5
      ∷ assert_eq (sub onehundred one) 99
      ∷ assert_eq (sub onehundred (of_int 6)) 94
      ∷ []

  -- `real` is whether INCLUDE_XFAIL or _TEST_REAL_INTS is defined. There the left operand of a shift
  -- may be an `int`, and so is the result.
  unfoldable pub shift_asserts : (real : Bool) → List Bool
  shift_asserts real =
      (if real then assert_eq (of_int (1 * 2 ^ value one)) 2 ∷ [] else [])
      ++ (assert_eq (shift_left one (of_int 2)) 4
          ∷ assert_eq (shift_left twofivesix one) 512
          ∷ assert_eq (shift_left (of_int 1) one) 2
          ∷ ((if real then assert_eq (of_int (2 / 2 ^ value one)) 1 ∷ [] else [])
              ++ (assert_eq (shift_right one (of_int 1)) 0
                  ∷ assert_eq (shift_right twofivesix one) 128
                  ∷ assert_eq (shift_right (of_int 2) one) 1
                  ∷ [])))

  unfoldable pub bit_asserts : (real : Bool) → List Bool
  bit_asserts real =
      (if real
        then assert_eq (complement zero) 0xffffffffffffffff
          ∷ assert_eq (complement (sub (of_int 2) one)) 0xfffffffffffffffe
          ∷ []
        else [])
      ++ (assert_eq (and_ one (of_int 1)) 1
          ∷ assert_eq (and_ (of_int 256) twofivesix) 256
          ∷ assert_eq (and_ one twofivesix) 0
          ∷ assert_eq (and_ (of_int 1) one) 1
          ∷ assert_eq (or_ one (of_int 2)) 0x3
          ∷ assert_eq (or_ (of_int 8) one) 0x9
          ∷ assert_eq (or_ one twofivesix) 0x101
          ∷ assert_eq (or_ (of_int 0) one) 1
          ∷ assert_eq (xor_ one (of_int 1)) 0
          ∷ assert_eq (xor_ (of_int 2) one) 0x3
          ∷ assert_eq (xor_ one twofivesix) 0x101
          ∷ assert_eq (xor_ (of_int 1) one) 0
          ∷ [])

  unfoldable pub product_asserts : List Bool
  product_asserts =
      assert_eq (mul twofivesix (of_int 2)) 512
      ∷ assert_eq (mul (of_int 2) onehundred) 200
      ∷ assert_eq (mul onehundred twofivesix) 25600
      ∷ assert_eq (mul (of_int 2) onehundred) 200
      ∷ assert_eq (div twofivesix (of_int 2)) 128
      ∷ assert_eq (div (of_int 1024) twofivesix) 4
      ∷ assert_eq (div twofivesix onehundred) 2
      ∷ assert_eq (div (of_int 1000) onehundred) 10
      ∷ assert_eq (mod_ twofivesix (of_int 200)) 56
      ∷ assert_eq (mod_ one (of_int 99)) 1
      ∷ assert_eq (mod_ onehundred twofivesix) 100
      ∷ assert_eq (mod_ (of_int 105) onehundred) 5
      ∷ []

  unfoldable pub choice_asserts : List Bool
  choice_asserts =
      assert_eq (if is_true zero then one else of_int 2) 2
      ∷ assert_eq (if is_true one then of_int 3 else onehundred) 3
      ∷ assert_eq (if true then onehundred else twofivesix) 100
      ∷ []

  unfoldable pub minus_asserts : List Bool
  minus_asserts =
      let minusfive = of_negative 5 in
      assert_eq minusfive (2 ^ 64 - 5)
      ∷ assert_eq (neg minusfive) 5
      ∷ assert_eq (neg one) (2 ^ 64 - 1)
      ∷ []

  -- The assertions in their order. `signed` is whether _TEST_SIGNED is defined.
  unfoldable pub uintcapmath : (real signed : Bool) → List Bool
  uintcapmath real signed =
      step_asserts
      ++ (compare_asserts
          ++ (logic_asserts
              ++ (sum_asserts
                  ++ (shift_asserts real
                      ++ (bit_asserts real
                          ++ (product_asserts
                              ++ (choice_asserts ++ (if signed then minus_asserts else []))))))))
