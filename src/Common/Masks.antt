-- ===== src/Common/Masks.antt =====
-- A mask and an addition of digits that leave the low digits alone.
use Prim.Native.Nat.{ℕ, zero, suc, ◌+◌, ◌-◌, ◌*◌, ◌/◌, ◌%◌, ◌^◌, ◌<◌, ◌≤◌, bit_and, bit_or}
use mathlib.Core.Path.{◌≡◌, ap, ◌∙◌}
use native.Mathlib.Omega.{arith}
use native.Mathlib.Nat.{pow-suc, div-div-eq-div-mul}
use cheritest.Common.Bits.{and_lowest, or_lowest, and_none}
use cheritest.Common.Fields.{mod_double, two_pow_pos}

masked : {a b x y c d : ℕ} → a ≡ b → x ≡ y → c ≡ d → bit_or (bit_and a x) c ≡ bit_or (bit_and b y) d
masked e f g = cc

-- One digit more of the same.
one_digit :
    (p x m c : ℕ)
    → 0 < p
    → bit_or (bit_and x (m * (p * 2) + (p * 2 - 1))) (c * (p * 2))
      ≡ bit_or (bit_and (x / 2) (m * p + (p - 1))) (c * p) * 2 + x % 2
one_digit p x m c h = omega (
  arith,
  or_lowest (bit_and x (m * (p * 2) + (p * 2 - 1))) (c * (p * 2)),
  and_lowest x (m * (p * 2) + (p * 2 - 1)),
  ones,
  shifted,
  ap (bit_or (bit_and x (m * (p * 2) + (p * 2 - 1)) / 2)) {x = c * (p * 2) / 2} {y = c * p}
      (omega arith),
  ap (λ a. bit_or a (c * p)) {x = bit_and x (m * (p * 2) + (p * 2 - 1)) / 2}
      {y = bit_and (x / 2) (m * p + (p - 1))}
      (omega (
        arith,
        and_lowest x (m * (p * 2) + (p * 2 - 1)),
        ones,
        ap (bit_and (x / 2)) {x = (m * (p * 2) + (p * 2 - 1)) / 2} {y = m * p + (p - 1)}
            (omega (arith, ones)),
      )),
)
  where
    ones : m * (p * 2) + (p * 2 - 1) ≡ 2 * (m * p + (p - 1)) + 1
    ones = grind arith

    shifted : c * (p * 2) ≡ 2 * (c * p)
    shifted = grind arith

-- A mask with ones in its low digits and an addition of higher digits keep the low digits.
pub low_digits :
    (k x m c : ℕ)
    → bit_or (bit_and x (m * 2 ^ k + (2 ^ k - 1))) (c * 2 ^ k)
      ≡ bit_or (bit_and (x / 2 ^ k) m) c * 2 ^ k + x % 2 ^ k
low_digits zero x m c =
    masked {a = x} {b = x / 1} {x = m * 1 + 0} {y = m} {c = c * 1} {d = c} (omega arith)
      (omega arith) (omega arith)
    ∙ omega arith
low_digits (suc k) x m c =
    rw (pow-suc 2 k) (one_more (2 ^ k) (two_pow_pos k) (low_digits k (x / 2) m c))
  where
    one_more :
        (p : ℕ)
        → 0 < p
        → bit_or (bit_and (x / 2) (m * p + (p - 1))) (c * p)
          ≡ bit_or (bit_and (x / 2 / p) m) c * p + x / 2 % p
        → bit_or (bit_and x (m * (p * 2) + (p * 2 - 1))) (c * (p * 2))
          ≡ bit_or (bit_and (x / (p * 2)) m) c * (p * 2) + x % (p * 2)
    one_more p h ih =
        one_digit p x m c h
        ∙ ap (λ n. n * 2 + x % 2) ih
        ∙ regroup (bit_or (bit_and (x / 2 / p) m) c)
        ∙ ap (λ n. bit_or (bit_and n m) c * (p * 2) + x % (p * 2)) same
      where
        same : x / 2 / p ≡ x / (p * 2)
        same = div-div-eq-div-mul x 2 p ∙ ap (λ n. x / n) (omega arith)

        regroup : (q : ℕ) → (q * p + x / 2 % p) * 2 + x % 2 ≡ q * (p * 2) + x % (p * 2)
        regroup q = grind (arith, mod_double x p h)

-- What a mask leaves out stays out under a further mask, on either side.
module _ (p x e : ℕ) (d : bit_and x e ≡ 0) where
  halves : bit_and (x / 2) (e / 2) ≡ 0
  halves = omega (arith, and_lowest x e)

  pub disjoint_left_step :
      bit_and (bit_and (p / 2) (x / 2)) (e / 2) ≡ 0 → bit_and (bit_and p x) e ≡ 0
  disjoint_left_step ih = omega (
    arith,
    and_lowest (bit_and p x) e,
    and_lowest p x,
    and_lowest x e,
    ih,
    ap (λ n. bit_and n (e / 2)) {x = bit_and p x / 2} {y = bit_and (p / 2) (x / 2)}
        (omega (arith, and_lowest p x)),
  )

  pub disjoint_right_step :
      bit_and (bit_and (x / 2) (p / 2)) (e / 2) ≡ 0 → bit_and (bit_and x p) e ≡ 0
  disjoint_right_step ih = omega (
    arith,
    and_lowest (bit_and x p) e,
    and_lowest x p,
    and_lowest x e,
    ih,
    ap (λ n. bit_and n (e / 2)) {x = bit_and x p / 2} {y = bit_and (x / 2) (p / 2)}
        (omega (arith, and_lowest x p)),
  )

no_digits : (a e : ℕ) → e ≤ 0 → bit_and a e ≡ 0
no_digits a e h = ap (bit_and a) {x = e} {y = 0} (omega arith) ∙ and_none a a (omega arith)

pub disjoint_left : (bound p x e : ℕ) → e ≤ bound → bit_and x e ≡ 0 → bit_and (bit_and p x) e ≡ 0
disjoint_left zero p x e h d = no_digits (bit_and p x) e h
disjoint_left (suc bound) p x e h d =
    disjoint_left_step p x e d
      (disjoint_left bound (p / 2) (x / 2) (e / 2) (omega arith) (halves p x e d))

pub disjoint_right : (bound p x e : ℕ) → e ≤ bound → bit_and x e ≡ 0 → bit_and (bit_and x p) e ≡ 0
disjoint_right zero p x e h d = no_digits (bit_and x p) e h
disjoint_right (suc bound) p x e h d =
    disjoint_right_step p x e d
      (disjoint_right bound (p / 2) (x / 2) (e / 2) (omega arith) (halves p x e d))

-- A number and its complement.
pub complement_disjoint : (w e : ℕ) → e < 2 ^ w → bit_and (2 ^ w - 1 - e) e ≡ 0
complement_disjoint zero e h = no_digits (2 ^ 0 - 1 - e) e (omega arith)
complement_disjoint (suc w) e h =
    twice (2 ^ w) (pow-suc 2 w) (omega (arith, h, pow-suc 2 w))
      (complement_disjoint w (e / 2) (omega (arith, h, pow-suc 2 w)))
  where
    twice :
        (p : ℕ)
        → 2 ^ suc w ≡ p * 2
        → e < p * 2
        → bit_and (p - 1 - e / 2) (e / 2) ≡ 0
        → bit_and (2 ^ suc w - 1 - e) e ≡ 0
    twice p q k ih = omega (
      arith,
      and_lowest (2 ^ suc w - 1 - e) e,
      q,
      ap (λ n. bit_and n (e / 2)) {x = (2 ^ suc w - 1 - e) / 2} {y = p - 1 - e / 2}
          (omega (arith, q)),
      ih,
    )
