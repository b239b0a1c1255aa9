-- ===== src/Common/Reading.antt =====
-- Reading a numeral that was printed.
use Prim.Native.Nat.{ℕ, zero, suc, ◌+◌, ◌-◌, ◌*◌, ◌/◌, ◌%◌, ◌^◌, ◌<◌}
use mathlib.Core.Path.{◌≡◌, refl, ap, ◌∙◌}
use mathlib.Core.Bool.{false, ◌||◌}
use mathlib.Core.List.{[], ◌∷◌, ◌++◌}
use mathlib.Core.Option.{none, some}
use native.Mathlib.Omega.{arith}
use native.Mathlib.Nat.{pow-suc, div-lt_iff_lt-mul}
use cheritest.Common.Tests.{ltb, ◌==◌, if◌then◌else◌}
use cheritest.Common.Text.{Text, Lacks}
use cheritest.Common.Numerals.{
  digit_value, read_digits, skip_space, read_sign, has_prefix, read_magnitude, strtoull_hex,
  hex_digit, print_hex,
}

-- The text does not go on with a digit.
abbrev pub Ends : (base : ℕ) → Text → Type 0
Ends base [] = Unit
Ends base (c ∷ s) = digit_value base c ≡ none

digit_value-hex_digit : (d : ℕ) → d < 16 → digit_value 16 (hex_digit d) ≡ some d
digit_value-hex_digit d h = ground arith

pub read_digits-end :
    (base acc : ℕ) (rest : Text) → Ends base rest → read_digits base acc rest ≡ acc
unfolding read_digits
read_digits-end base acc [] e = refl
read_digits-end base acc (c ∷ s) e = rw (read_digits, e) refl

read_digits-print_hex_acc :
    (width n acc : ℕ) (rest : Text)
    → n < 16 ^ width
    → read_digits 16 acc (print_hex width n rest) ≡ read_digits 16 (acc * 16 ^ width + n) rest
unfolding print_hex read_digits
read_digits-print_hex_acc zero n acc rest h = ap (λ a. read_digits 16 a rest) (omega arith)
read_digits-print_hex_acc (suc width) n acc rest h =
    read_digits-print_hex_acc width (n / 16) acc (hex_digit (n % 16) ∷ rest) small
    ∙ one_digit (acc * 16 ^ width + n / 16)
    ∙ ap (λ a. read_digits 16 a rest) whole
  where
    small : n / 16 < 16 ^ width
    small = (div-lt_iff_lt-mul {k = 16} (omega arith)).1 (rw (← pow-suc 16 width) h)

    one_digit :
        (a : ℕ)
        → read_digits 16 a (hex_digit (n % 16) ∷ rest) ≡ read_digits 16 (a * 16 + n % 16) rest
    one_digit a = rw (read_digits, digit_value-hex_digit (n % 16) (omega arith)) refl

    whole : (acc * 16 ^ width + n / 16) * 16 + n % 16 ≡ acc * 16 ^ suc width + n
    whole = rw (pow-suc 16 width) (grind arith)

-- Reading a printed number gives it back.
pub read_digits-print_hex :
    (width n : ℕ) (rest : Text)
    → n < 16 ^ width
    → Ends 16 rest
    → read_digits 16 0 (print_hex width n rest) ≡ n
read_digits-print_hex width n rest h e =
    read_digits-print_hex_acc width n 0 rest h ∙ read_digits-end 16 _ rest e ∙ omega arith

saturated : (n : ℕ) → n < 2 ^ 64 → (if ltb n (2 ^ 64) then n else 2 ^ 64 - 1) ≡ n
saturated n h = ground arith

-- A text that starts with two hexadecimal digits as they are printed has no space, sign or prefix.
module _ (a b : ℕ) (s : Text) (ha : a < 16) (hb : b < 16) where
  no_space : skip_space (hex_digit a ∷ hex_digit b ∷ s) ≡ hex_digit a ∷ hex_digit b ∷ s
  unfolding skip_space
  no_space = ground arith

  no_sign : read_sign (hex_digit a ∷ hex_digit b ∷ s) ≡ (false, hex_digit a ∷ hex_digit b ∷ s)
  unfolding read_sign
  no_sign = ground arith

  not_x : (hex_digit b == 0x78 || hex_digit b == 0x58) ≡ false
  not_x = ground arith

  no_prefix : has_prefix (hex_digit a ∷ hex_digit b ∷ s) ≡ false
  unfolding has_prefix
  no_prefix = no_prefix_before s
    where
      no_prefix_before : (t : Text) → has_prefix (hex_digit a ∷ hex_digit b ∷ t) ≡ false
      no_prefix_before [] = refl
      no_prefix_before (d ∷ t) = ground (arith, not_x)

  pub strtoull_hex_digits :
      read_digits 16 0 (hex_digit a ∷ hex_digit b ∷ s) < 2 ^ 64
      → strtoull_hex (hex_digit a ∷ hex_digit b ∷ s)
        ≡ read_digits 16 0 (hex_digit a ∷ hex_digit b ∷ s)
  unfolding strtoull_hex
  strtoull_hex_digits h =
      rw (strtoull_hex, no_space, no_sign, read_magnitude, no_prefix)
        (saturated (read_digits 16 0 (hex_digit a ∷ hex_digit b ∷ s)) h)

-- So strtoull reads a number that is printed with sixteen digits.
pub strtoull_hex-print_hex :
    (v : ℕ) (rest : Text) → v < 2 ^ 64 → Ends 16 rest → strtoull_hex (print_hex 16 v rest) ≡ v
unfolding print_hex
strtoull_hex-print_hex v rest h e =
    strtoull_hex_digits _ _ _ (omega arith) (omega arith) (rw printed h) ∙ printed
  where
    printed : read_digits 16 0 (print_hex 16 v rest) ≡ v
    printed = read_digits-print_hex 16 v rest h e

hex_digit_not_x : (d : ℕ) → d < 16 → (hex_digit d == 0x78) ≡ false
hex_digit_not_x d h = ground arith

pub print_hex-Lacks :
    (width v : ℕ) (rest : Text) → Lacks 0x78 rest → Lacks 0x78 (print_hex width v rest)
unfolding print_hex
print_hex-Lacks zero v rest l = l
print_hex-Lacks (suc width) v rest l =
    print_hex-Lacks width (v / 16) (hex_digit (v % 16) ∷ rest)
      (hex_digit_not_x (v % 16) (omega arith), l)

pub print_hex-append :
    (width v : ℕ) (s t : Text) → print_hex width v (s ++ t) ≡ print_hex width v s ++ t
unfolding print_hex
print_hex-append zero v s t = refl
print_hex-append (suc width) v s t = print_hex-append width (v / 16) (hex_digit (v % 16) ∷ s) t
