-- ===== src/Common/Fields.antt =====
-- Bit fields: a mask of ones, shifted to the field's place, reads the field.
use Prim.Native.Nat.{ℕ, zero, suc, ◌+◌, ◌-◌, ◌*◌, ◌/◌, ◌%◌, ◌^◌, ◌≤◌, ◌<◌, bit_and}
use mathlib.Core.Path.{◌≡◌, sym, ap, ◌∙◌}
use native.Mathlib.Omega.{arith}
use mathlib.Core.Logic.{◌⊎◌, inl, inr}
use native.Mathlib.Nat.{
  add-mul-div_right, div-eq_of_lt, mul-lt-mul_of_pos_right, pow-le-pow_right, div-lt_iff_lt-mul,
  mod-lt, mod-add-div, pow-suc, div-one, div-div-eq-div-mul, add-mul-mod_self_right, mod-eq_of_lt,
  one-le-pow,
}
use cheritest.Common.Bits.{and_lowest, and_none}

pub two_pow_pos : (k : ℕ) → 0 < 2 ^ k
two_pow_pos k = one-le-pow k 2 (omega arith)

-- An even mask leaves the lowest digit out.
two_times : (x z : ℕ) → bit_and x (2 * z) / 2 ≡ bit_and (x / 2) z
two_times x z =
    omega (arith, and_lowest x (2 * z), ap (bit_and (x / 2)) {x = 2 * z / 2} {y = z} (omega arith))

-- Shifting the mask and the result is shifting the number.
pub shifted_mask : (k x y : ℕ) → bit_and x (y * 2 ^ k) / 2 ^ k ≡ bit_and (x / 2 ^ k) y
shifted_mask zero x y = div-one _ ∙ cong_and (sym (div-one x)) (omega arith)
  where
    cong_and : {a b c d : ℕ} → a ≡ b → c ≡ d → bit_and a c ≡ bit_and b d
    cong_and e e' = cc
shifted_mask (suc k) x y =
    ap (λ n. bit_and x (y * n) / n) (pow-suc 2 k ∙ omega arith)
    ∙ sym (div-div-eq-div-mul (bit_and x (y * (2 * 2 ^ k))) 2 (2 ^ k))
    ∙ ap (λ n. n / 2 ^ k) halved
    ∙ shifted_mask k (x / 2) y
    ∙ ap (λ n. bit_and n y)
        (div-div-eq-div-mul x 2 (2 ^ k) ∙ ap (λ n. x / n) (omega arith ∙ sym (pow-suc 2 k)))
  where
    even : y * (2 * 2 ^ k) ≡ 2 * (y * 2 ^ k)
    even = grind arith

    halved : bit_and x (y * (2 * 2 ^ k)) / 2 ≡ bit_and (x / 2) (y * 2 ^ k)
    halved = ap (λ n. bit_and x n / 2) even ∙ two_times x (y * 2 ^ k)

-- A quotient and a small remainder determine the remainder.
pub remainder : (x q r m : ℕ) → x ≡ r + q * m → r < m → x % m ≡ r
remainder x q r m e h = ap (λ n. n % m) e ∙ add-mul-mod_self_right r q m ∙ mod-eq_of_lt h

pub quotient : (x q r m : ℕ) → x ≡ r + q * m → r < m → x / m ≡ q
quotient x q r m e h =
    ap (λ n. n / m) e
    ∙ add-mul-div_right r q (omega (arith, h))
    ∙ ap (λ n. n + q) (div-eq_of_lt h)
    ∙ omega arith

-- The remainder by a power of two, one digit at a time.
pub mod_double : (x p : ℕ) → 0 < p → x % (p * 2) ≡ x / 2 % p * 2 + x % 2
mod_double x p h =
    remainder x (x / 2 / p) (x / 2 % p * 2 + x % 2) (p * 2) whole (omega (arith, mod-lt (x / 2) h))
  where
    twice : x / 2 / p * (p * 2) ≡ 2 * (p * (x / 2 / p))
    twice = grind arith

    whole : x ≡ x / 2 % p * 2 + x % 2 + x / 2 / p * (p * 2)
    whole = omega (arith, mod-add-div (x / 2) p, twice)

-- A mask of ones is a remainder.
pub mask_ones : (l x : ℕ) → bit_and x (2 ^ l - 1) ≡ x % 2 ^ l
mask_ones zero x = and_none x x (omega arith) ∙ omega arith
mask_ones (suc l) x =
    ap (λ n. bit_and x (n - 1)) (pow-suc 2 l)
    ∙ one_digit (2 ^ l) (two_pow_pos l) (mask_ones l (x / 2))
    ∙ ap (λ n. x % n) (sym (pow-suc 2 l))
  where
    one_digit :
        (p : ℕ) → 0 < p → bit_and (x / 2) (p - 1) ≡ x / 2 % p → bit_and x (p * 2 - 1) ≡ x % (p * 2)
    one_digit p h ih = omega (
      arith,
      and_lowest x (p * 2 - 1),
      ap (bit_and (x / 2)) {x = (p * 2 - 1) / 2} {y = p - 1} (omega arith),
      ih,
      mod_double x p h,
    )

pub pow-add : (a b : ℕ) → 2 ^ (a + b) ≡ 2 ^ a * 2 ^ b
pow-add zero b = ap (λ n. 2 ^ n) {x = 0 + b} {y = b} (omega arith) ∙ once
  where
    once : 2 ^ b ≡ 1 * 2 ^ b
    once = omega arith
pow-add (suc a) b =
    ap (λ n. 2 ^ n) {x = suc a + b} {y = suc (a + b)} (omega arith)
    ∙ pow-suc 2 (a + b)
    ∙ ap (λ n. n * 2) (pow-add a b)
    ∙ regroup
    ∙ ap (λ n. n * 2 ^ b) (sym (pow-suc 2 a))
  where
    regroup : 2 ^ a * 2 ^ b * 2 ≡ 2 ^ a * 2 * 2 ^ b
    regroup = grind arith

pub scaled : (a b c : ℕ) → 0 < b → 0 < c → a * c % (b * c) ≡ a % b * c
scaled a b c h k =
    remainder (a * c) (a / b) (a % b * c) (b * c) whole (mul-lt-mul_of_pos_right (mod-lt a h) k)
  where
    whole : a * c ≡ a % b * c + a / b * (b * c)
    whole = ap (λ n. n * c) (sym (mod-add-div a b)) ∙ grind arith

pub le_or_lt : (t u : ℕ) → (t ≤ u) ⊎ (u < t)
le_or_lt t u = omega arith

pub multiple_less_one : (d p : ℕ) → 0 < d → 0 < p → (d * p - 1) % p ≡ p - 1
multiple_less_one zero p h k = elim h [ ]
multiple_less_one (suc e) p h k = remainder (suc e * p - 1) e (p - 1) p (omega arith) (omega arith)

pub quotient_less_one : (d p : ℕ) → 0 < d → 0 < p → (d * p - 1) / p ≡ d - 1
quotient_less_one zero p h k = elim h [ ]
quotient_less_one (suc e) p h k =
    quotient (suc e * p - 1) e (p - 1) p (omega arith) (omega arith) ∙ omega arith

-- A mask that is cut at the top reads the same from a number that ends there too.
cut_mask : (t u y : ℕ) → y < 2 ^ u → bit_and y ((2 ^ t - 1) % 2 ^ u) ≡ y % 2 ^ t
cut_mask t u y h = elim (le_or_lt t u) [
  | inl le ↦
      ap (bit_and y)
        (mod-eq_of_lt (omega (arith, two_pow_pos t, pow-le-pow_right {n = 2} (omega arith) le)))
      ∙ mask_ones t y
  | inr lt ↦
      ap (bit_and y) (more_ones lt)
      ∙ mask_ones u y
      ∙ mod-eq_of_lt h
      ∙ sym (
          mod-eq_of_lt (
            omega (arith, h, pow-le-pow_right {n = 2} (omega arith) {i = u} {j = t} (omega arith))))
]
  where
    more_ones : u < t → (2 ^ t - 1) % 2 ^ u ≡ 2 ^ u - 1
    more_ones lt =
        ap (λ n. (n - 1) % 2 ^ u)
          (ap (λ n. 2 ^ n) {x = t} {y = t - u + u} (omega arith) ∙ pow-add (t - u) u)
        ∙ multiple_less_one (2 ^ (t - u)) (2 ^ u) (two_pow_pos (t - u)) (two_pow_pos u)

-- So shifting a field of `t` bits out of a word of 32 bits takes the quotient and the remainder.
pub read_field :
    (t low x : ℕ)
    → low ≤ 32
    → x < 2 ^ 32
    → bit_and x ((2 ^ t - 1) * 2 ^ low % 2 ^ 32) / 2 ^ low ≡ x / 2 ^ low % 2 ^ t
read_field t low x le h =
    ap (λ n. bit_and x ((2 ^ t - 1) * 2 ^ low % n) / 2 ^ low) word
    ∙ ap (λ n. bit_and x n / 2 ^ low)
        (scaled (2 ^ t - 1) (2 ^ (32 - low)) (2 ^ low) (two_pow_pos (32 - low)) (two_pow_pos low))
    ∙ shifted_mask low x ((2 ^ t - 1) % 2 ^ (32 - low))
    ∙ cut_mask t (32 - low) (x / 2 ^ low) ((div-lt_iff_lt-mul (two_pow_pos low)).1 (rw (← word) h))
  where
    word : 2 ^ 32 ≡ 2 ^ (32 - low) * 2 ^ low
    word = ap (λ n. 2 ^ n) {x = 32} {y = 32 - low + low} (omega arith) ∙ pow-add (32 - low) low
