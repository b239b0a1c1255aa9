-- ===== src/Common/Decimal.antt =====
-- Reading a decimal numeral that was printed.
use Prim.Native.Nat.{ℕ, zero, suc, ◌+◌, ◌-◌, ◌*◌, ◌/◌, ◌%◌, ◌^◌, ◌<◌, ◌≤◌}
use mathlib.Core.Path.{◌≡◌, refl, ap, ◌∙◌}
use mathlib.Core.Bool.{false}
use mathlib.Core.Logic.{inl, inr}
use mathlib.Core.List.{[], ◌∷◌}
use mathlib.Core.Option.{some}
use native.Mathlib.Omega.{arith}
use cheritest.Common.Tests.{ltb, if◌then◌else◌, Bool-cases}
use cheritest.Common.Int.{pos, negsuc}
use cheritest.Common.Text.{Text}
use cheritest.Common.Numerals.{
  digit_value, read_digits, skip_space, read_sign, print_digits, strtol, negated,
}

digit_value_decimal : (d : ℕ) → d < 10 → digit_value 10 (0x30 + d) ≡ some d
digit_value_decimal d h = ground arith

pub read_digits-print_digits :
    (fuel n : ℕ) (rest : Text)
    → n < fuel
    → read_digits 10 0 (print_digits fuel n rest) ≡ read_digits 10 n rest
unfolding print_digits read_digits
read_digits-print_digits zero n rest h = absurd (omega arith)
read_digits-print_digits (suc fuel) n rest h = elim (Bool-cases (ltb n 10)) [
  | inl small ↦
      rw (print_digits, small, read_digits, digit_value_decimal (n % 10) (omega arith))
        (ap (λ a. read_digits 10 a rest) (ground arith))
  | inr large ↦
      rw (print_digits, large)
        (read_digits-print_digits fuel (n / 10) ((0x30 + n % 10) ∷ rest) (ground arith)
          ∙ rw (read_digits, digit_value_decimal (n % 10) (omega arith))
              (ap (λ a. read_digits 10 a rest) (omega arith)))
]

-- A text that starts with a decimal digit.
abbrev pub StartsDecimal : Text → Type 0
StartsDecimal [] = ⊥
StartsDecimal (c ∷ s) = (0x30 ≤ c) × (c < 0x3a)

print_digits-StartsDecimal_after :
    (fuel n : ℕ) (rest : Text) → StartsDecimal rest → StartsDecimal (print_digits fuel n rest)
unfolding print_digits
print_digits-StartsDecimal_after zero n rest h = h
print_digits-StartsDecimal_after (suc fuel) n rest h = elim (Bool-cases (ltb n 10)) [
  | inl small ↦ rw (print_digits, small) (omega arith, omega arith)
  | inr large ↦
      rw (print_digits, large)
        (print_digits-StartsDecimal_after fuel (n / 10) ((0x30 + n % 10) ∷ rest)
          (omega arith, omega arith))
]

pub print_digits-StartsDecimal :
    (fuel n : ℕ) (rest : Text) → StartsDecimal (print_digits (suc fuel) n rest)
unfolding print_digits
print_digits-StartsDecimal fuel n rest = elim (Bool-cases (ltb n 10)) [
  | inl small ↦ rw (print_digits, small) (omega arith, omega arith)
  | inr large ↦
      rw (print_digits, large)
        (print_digits-StartsDecimal_after fuel (n / 10) ((0x30 + n % 10) ∷ rest)
          (omega arith, omega arith))
]

-- Such a text has no space and no sign.
skip_space_decimal : (s : Text) → StartsDecimal s → skip_space s ≡ s
unfolding skip_space
skip_space_decimal [] h = absurd h
skip_space_decimal (c ∷ s) h = ground arith

read_sign_decimal : (s : Text) → StartsDecimal s → read_sign s ≡ (false, s)
unfolding read_sign
read_sign_decimal [] h = absurd h
read_sign_decimal (c ∷ s) h = ground arith

-- strtol reads a number that is printed in decimal, with its sign.
pub strtol-print_digits : (n : ℕ) → n < 2 ^ 63 → strtol 10 (print_digits (suc n) n []) ≡ pos n
unfolding strtol
strtol-print_digits n h =
    rw
      (
        strtol,
        skip_space_decimal _ (print_digits-StartsDecimal n n []),
        read_sign_decimal _ (print_digits-StartsDecimal n n []),
      )
      (ap (λ m. pos (if ltb m (2 ^ 63) then m else 2 ^ 63 - 1))
          (read_digits-print_digits (suc n) n [] (omega arith))
        ∙ ground arith)

pub strtol-print_digits_minus :
    (n : ℕ) → n < 2 ^ 63 → strtol 10 (0x2d ∷ print_digits (suc (suc n)) (suc n) []) ≡ negsuc n
unfolding strtol read_digits
strtol-print_digits_minus n h =
    ap (λ m. negated (if ltb m (2 ^ 63) then m else 2 ^ 63))
      {x = read_digits 10 0 (print_digits (suc (suc n)) (suc n) [])} {y = suc n}
      (read_digits-print_digits (suc (suc n)) (suc n) [] (omega arith))
    ∙ ap negated at_most
  where
    at_most : (if ltb (suc n) (2 ^ 63) then suc n else 2 ^ 63) ≡ suc n
    at_most = ground arith

-- strtol on a text that starts with a digit, perhaps after a blank.
pub strtol_decimal :
    (s : Text)
    → StartsDecimal s
    → read_digits 10 0 s < 2 ^ 63
    → strtol 10 s ≡ pos (read_digits 10 0 s)
unfolding strtol
strtol_decimal s d h =
    rw (strtol, skip_space_decimal s d, read_sign_decimal s d) (in_range (read_digits 10 0 s) h)
  where
    in_range : (n : ℕ) → n < 2 ^ 63 → pos (if ltb n (2 ^ 63) then n else 2 ^ 63 - 1) ≡ pos n
    in_range n k = ground arith

pub strtol_blank : (s : Text) → strtol 10 (0x20 ∷ s) ≡ strtol 10 s
unfolding strtol skip_space
strtol_blank s = refl

pub read_digits_one : (b : ℕ) → b < 10 → read_digits 10 0 ((0x30 + b) ∷ []) ≡ b
unfolding read_digits
read_digits_one b h = rw (read_digits, digit_value_decimal b h) (omega arith)

pub read_digits_two :
    (a b : ℕ) → a < 10 → b < 10 → read_digits 10 0 ((0x30 + a) ∷ (0x30 + b) ∷ []) ≡ a * 10 + b
unfolding read_digits
read_digits_two a b h k =
    rw (read_digits, digit_value_decimal a h, read_digits, digit_value_decimal b k) (omega arith)
