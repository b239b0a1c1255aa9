-- ===== src/Common/Bits.antt =====
-- `&`, `|` and `^` under the masks of 8, 16 and 32 bytes, as arithmetic.
use Prim.Native.Nat.{
  ℕ, zero, suc, ◌+◌, ◌-◌, ◌*◌, ◌/◌, ◌%◌, ◌≤◌, ◌<◌, min, max, bit_and, bit_or, bit_xor, digits,
  differ, bit_and-bitwise, bit_or-bitwise, bit_xor-bitwise,
}
use mathlib.Core.Path.{◌≡◌, refl, ap, sym, ◌∙◌}
use mathlib.Core.Logic.{◌↔◌}
use native.Mathlib.Omega.{arith}

-- The native operations go down the digits of the first number, one for each unit of fuel. Fuel
-- beyond the number itself changes nothing.
one_more :
    (z : ℕ → ℕ) (f : ℕ → ℕ → ℕ) (fuel a b : ℕ)
    → a ≤ fuel
    → digits z f fuel a b ≡ digits z f (suc fuel) a b
one_more z f zero zero b h = refl
one_more z f (suc fuel) zero b h = refl
one_more z f zero (suc a) b h = absurd (omega arith)
one_more z f (suc fuel) (suc a) b h =
    ap (λ d. d * 2 + f (suc a % 2) (b % 2)) (one_more z f fuel (suc a / 2) (b / 2) (omega arith))

spare_fuel :
    (z : ℕ → ℕ) (f : ℕ → ℕ → ℕ) (spare a b : ℕ) → digits z f a a b ≡ digits z f (spare + a) a b
spare_fuel z f zero a b = ap (λ n. digits z f n a b) (omega arith)
spare_fuel z f (suc spare) a b =
    spare_fuel z f spare a b
    ∙ one_more z f (spare + a) a b (omega arith)
    ∙ ap (λ n. digits z f n a b) {x = suc (spare + a)} (omega arith)

-- So the lowest digit comes off with the fuel still that of the number.
lowest :
    (z : ℕ → ℕ) (f : ℕ → ℕ → ℕ) (a b : ℕ)
    → digits z f (suc a) (suc a) b
      ≡ digits z f (suc a / 2) (suc a / 2) (b / 2) * 2 + f (suc a % 2) (b % 2)
lowest z f a b =
    ap (λ d. d * 2 + f (suc a % 2) (b % 2))
      (ap (λ n. digits z f n (suc a / 2) (b / 2)) (omega arith)
        ∙ sym (spare_fuel z f (a - suc a / 2) (suc a / 2) (b / 2)))

pub or_lowest : (a b : ℕ) → bit_or a b ≡ bit_or (a / 2) (b / 2) * 2 + max (a % 2) (b % 2)
or_lowest zero b = omega (arith, bit_or-bitwise 0 b, bit_or-bitwise 0 (b / 2))
or_lowest (suc a) b =
    omega
      (arith, bit_or-bitwise (suc a) b, bit_or-bitwise (suc a / 2) (b / 2), lowest (λ y. y) max a b)

pub and_lowest : (a b : ℕ) → bit_and a b ≡ bit_and (a / 2) (b / 2) * 2 + min (a % 2) (b % 2)
and_lowest zero b = omega (arith, bit_and-bitwise 0 b, bit_and-bitwise 0 (b / 2))
and_lowest (suc a) b =
    omega (
      arith,
      bit_and-bitwise (suc a) b,
      bit_and-bitwise (suc a / 2) (b / 2),
      lowest (λ y. 0) min a b,
    )

-- Two digits differ when their sum is odd.
differ_digits : (x y : ℕ) → x < 2 → y < 2 → differ x y ≡ (x + y) % 2
differ_digits zero y p q = omega arith
differ_digits (suc zero) zero p q = refl
differ_digits (suc zero) (suc zero) p q = refl
differ_digits (suc zero) (suc (suc y)) p q = absurd (omega arith)
differ_digits (suc (suc x)) y p q = absurd (omega arith)

pub xor_lowest : (a b : ℕ) → bit_xor a b ≡ bit_xor (a / 2) (b / 2) * 2 + (a % 2 + b % 2) % 2
xor_lowest zero b = omega (arith, bit_xor-bitwise 0 b, bit_xor-bitwise 0 (b / 2))
xor_lowest (suc a) b = omega (
  arith,
  bit_xor-bitwise (suc a) b,
  bit_xor-bitwise (suc a / 2) (b / 2),
  lowest (λ y. y) differ a b,
  differ_digits (suc a % 2) (b % 2) (omega arith) (omega arith),
)

-- Nothing is left of a number under the empty mask, whatever the bound on it.
pub and_none : (bound a : ℕ) → a ≤ bound → bit_and a 0 ≡ 0
and_none zero a h = omega (arith, and_lowest a 0, bit_and-bitwise 0 0, ap (λ n. bit_and n 0) h0)
  where
    h0 : a ≡ 0
    h0 = omega arith
and_none (suc bound) a h = omega (arith, and_lowest a 0, and_none bound (a / 2) (omega arith))

-- A mask of ones is a remainder.
mask_one : (a : ℕ) → bit_and a 1 ≡ a % 2
mask_one a = omega (arith, and_lowest a 1, and_none (a / 2) (a / 2) (omega arith))

mask_three : (a : ℕ) → bit_and a 3 ≡ a % 4
mask_three a = omega (arith, and_lowest a 3, mask_one (a / 2))

pub mask_seven : (a : ℕ) → bit_and a 7 ≡ a % 8
mask_seven a = omega (arith, and_lowest a 7, mask_three (a / 2))

pub mask_15 : (a : ℕ) → bit_and a 15 ≡ a % 16
mask_15 a = omega (arith, and_lowest a 15, mask_seven (a / 2))

pub mask_31 : (a : ℕ) → bit_and a 31 ≡ a % 32
mask_31 a = omega (arith, and_lowest a 31, mask_15 (a / 2))

-- `a | b` has no low bits set exactly when neither has.
abbrev OrLow : ℕ → ℕ → ℕ → Type 0
OrLow n x y = (bit_or x y % n ≡ 0) ↔ ((x % n ≡ 0) × (y % n ≡ 0))

-- `a ^ b` has no low bits set exactly when these agree.
abbrev XorLow : ℕ → ℕ → ℕ → Type 0
XorLow n x y = (bit_xor x y % n ≡ 0) ↔ (x % n ≡ y % n)

OrLow-two : (a b : ℕ) → OrLow 2 a b
OrLow-two a b = (λ h. omega (arith, or_lowest a b), λ h. omega (arith, or_lowest a b))

XorLow-two : (a b : ℕ) → XorLow 2 a b
XorLow-two a b = (λ h. omega (arith, xor_lowest a b), λ h. omega (arith, xor_lowest a b))

OrLow-four : (a b : ℕ) → OrLow 4 a b
OrLow-four a b = grind (arith, or_lowest a b, OrLow-two (a / 2) (b / 2))

XorLow-four : (a b : ℕ) → XorLow 4 a b
XorLow-four a b = grind (arith, xor_lowest a b, XorLow-two (a / 2) (b / 2))

OrLow-eight : (a b : ℕ) → OrLow 8 a b
OrLow-eight a b = grind (arith, or_lowest a b, OrLow-four (a / 2) (b / 2))

XorLow-eight : (a b : ℕ) → XorLow 8 a b
XorLow-eight a b = grind (arith, xor_lowest a b, XorLow-four (a / 2) (b / 2))

OrLow-16 : (a b : ℕ) → OrLow 16 a b
OrLow-16 a b = grind (arith, or_lowest a b, OrLow-eight (a / 2) (b / 2))

XorLow-16 : (a b : ℕ) → XorLow 16 a b
XorLow-16 a b = grind (arith, xor_lowest a b, XorLow-eight (a / 2) (b / 2))

-- The same through a mask, at the sizes of a word and of a capability.
module _ (a b : ℕ) where
  pub or_mask_eight : (bit_and (bit_or a b) 7 ≡ 0) ↔ ((a % 8 ≡ 0) × (b % 8 ≡ 0))
  or_mask_eight = rw mask_seven (OrLow-eight a b)

  pub or_mask_16 : (bit_and (bit_or a b) 15 ≡ 0) ↔ ((a % 16 ≡ 0) × (b % 16 ≡ 0))
  or_mask_16 = rw mask_15 (OrLow-16 a b)

  pub or_mask_32 : (bit_and (bit_or a b) 31 ≡ 0) ↔ ((a % 32 ≡ 0) × (b % 32 ≡ 0))
  or_mask_32 = rw mask_31 (grind (arith, or_lowest a b, OrLow-16 (a / 2) (b / 2)))

  pub xor_mask_eight : (bit_and (bit_xor a b) 7 ≡ 0) ↔ (a % 8 ≡ b % 8)
  xor_mask_eight = rw mask_seven (XorLow-eight a b)

  pub xor_mask_16 : (bit_and (bit_xor a b) 15 ≡ 0) ↔ (a % 16 ≡ b % 16)
  xor_mask_16 = rw mask_15 (XorLow-16 a b)

  pub xor_mask_32 : (bit_and (bit_xor a b) 31 ≡ 0) ↔ (a % 32 ≡ b % 32)
  xor_mask_32 = rw mask_31 (grind (arith, xor_lowest a b, XorLow-16 (a / 2) (b / 2)))
