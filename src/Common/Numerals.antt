-- ===== src/Common/Numerals.antt =====
-- Numerals as the C library prints and reads them.
use Prim.Native.Nat.{ℕ, zero, suc, ◌+◌, ◌-◌, ◌*◌, ◌/◌, ◌%◌, ◌^◌}
use mathlib.Core.Bool.{Bool, true, false, ◌&&◌, ◌||◌}
use mathlib.Core.List.{[], ◌∷◌}
use mathlib.Core.Option.{Option, none, some}
use cheritest.Common.Tests.{leb, ltb, ◌==◌, if◌then◌else◌}
use cheritest.Common.Int.{ℤ, pos, negsuc}
use cheritest.Common.Text.{Text, codes, starts_with}
use cheritest.Common.Lists.{drop}

-- The value of a digit or a letter.
abbrev pub alphanumeric : ℕ → Option ℕ
alphanumeric c =
    if leb 0x30 c && leb c 0x39
    then some (c - 0x30)
    else if leb 0x61 c && leb c 0x7a
    then some (c - 0x57)
    else if leb 0x41 c && leb c 0x5a
    then some (c - 0x37)
    else none

abbrev pub digit_value : (base c : ℕ) → Option ℕ
digit_value base c = elim (alphanumeric c) [
  | none ↦ none
  | some d ↦ if ltb d base then some d else none
]

-- The digits at the start of the text, after `acc`.
unfoldable pub read_digits : (base acc : ℕ) → Text → ℕ
read_digits base acc [] = acc
read_digits base acc (c ∷ s) = elim (digit_value base c) [
  | none ↦ acc
  | some d ↦ read_digits base (acc * base + d) s
]

-- isspace
abbrev pub is_space : ℕ → Bool
is_space c = c == 0x20 || (leb 9 c && leb c 13)

unfoldable pub skip_space : Text → Text
skip_space [] = []
skip_space (c ∷ s) = if is_space c then skip_space s else c ∷ s

-- A sign, if there is one, and what follows.
unfoldable pub read_sign : Text → Bool × Text
read_sign [] = (false, [])
read_sign (c ∷ s) =
    if c == 0x2d then (true, s) else if c == 0x2b then (false, s) else (false, c ∷ s)

-- "0x" before a hexadecimal digit.
unfoldable pub has_prefix : Text → Bool
has_prefix (c ∷ x ∷ d ∷ s) =
    c == 0x30
    && ((x == 0x78 || x == 0x58) && elim (digit_value 16 d) [ none ↦ false | some v ↦ true ])
has_prefix _ = false

unfoldable pub read_magnitude : (base : ℕ) → Text → ℕ
unfolding has_prefix read_digits
read_magnitude base s = read_digits base 0 (if base == 16 && has_prefix s then drop 2 s else s)

-- strtoull(s, NULL, 16), which stops at the largest value and negates after a minus sign.
unfoldable pub strtoull_hex : Text → ℕ
unfolding skip_space read_sign read_magnitude
strtoull_hex s =
    let (negative, t) = read_sign (skip_space s) in
    let n = read_magnitude 16 t in
    if ltb n (2 ^ 64) then (if negative then (2 ^ 64 - n) % 2 ^ 64 else n) else 2 ^ 64 - 1

-- The base that strtol finds out when it is given 0.
unfoldable pub find_base : Text → ℕ
unfolding has_prefix starts_with
find_base s = if has_prefix s then 16 else if starts_with s (codes "0") then 8 else 10

abbrev pub negated : ℕ → ℤ
negated zero = pos 0
negated (suc n) = negsuc n

-- strtol(s, NULL, base) for the bases 0 and 10, as a number of 64 bits.
unfoldable pub strtol : (base : ℕ) → Text → ℤ
unfolding skip_space read_sign read_magnitude find_base
strtol base s =
    let (negative, t) = read_sign (skip_space s) in
    let n = read_magnitude (if base == 0 then find_base t else base) t in
    if negative
    then negated (if ltb n (2 ^ 63) then n else 2 ^ 63)
    else pos (if ltb n (2 ^ 63) then n else 2 ^ 63 - 1)

-- A `long` as an `int`.
abbrev pub signed_word : ℕ → ℤ
signed_word n = if ltb n (2 ^ 31) then pos n else negsuc (2 ^ 32 - n - 1)

unfoldable pub to_int : ℤ → ℤ
to_int (pos n) = signed_word (n % 2 ^ 32)
to_int (negsuc n) = signed_word (2 ^ 32 - 1 - n % 2 ^ 32)

-- A hexadecimal digit as it is printed.
abbrev pub hex_digit : ℕ → ℕ
hex_digit d = if ltb d 10 then 0x30 + d else 0x57 + d

-- "%0<width>x" of a number with at most `width` digits, before the text `rest`.
unfoldable pub print_hex : (width n : ℕ) → (rest : Text) → Text
print_hex zero n rest = rest
print_hex (suc width) n rest = print_hex width (n / 16) (hex_digit (n % 16) ∷ rest)

-- "%d" of a number below `10 ^ fuel`, and of any number.
unfoldable pub print_digits : (fuel n : ℕ) → (rest : Text) → Text
print_digits zero n rest = rest
print_digits (suc fuel) n rest =
    let d = 0x30 + n % 10 in
    elim (ltb n 10) [ true ↦ d ∷ rest | false ↦ print_digits fuel (n / 10) (d ∷ rest) ]

unfoldable pub print_int : ℤ → (rest : Text) → Text
unfolding print_digits
print_int (pos n) rest = print_digits (n + 1) n rest
print_int (negsuc n) rest = 0x2d ∷ print_digits (n + 2) (n + 1) rest
