-- ===== src/Tools/L3.antt =====
-- l3tosim.c: the register dump of the L3 simulator, rewritten for the test harness.
use cheritest.Common.{
  ℕ, ◌+◌, ◌/◌, ◌%◌, ◌<◌, ◌≡◌, ◌⊎◌, inl, inr, refl, ap, ◌∙◌, Bool, true, false, not, ◌&&◌, none,
  some, List, [], ◌∷◌, ◌++◌, take, drop, length, ltb, ◌==◌, if◌then◌else◌, Run, ok, fault, ◌>>=◌,
  arith,
}
use cheritest.Common.Int.{ℤ, pos, negsuc}
use cheritest.Common.Text.{Text, codes, starts_with, contains, lines, Lacks, strstr-Lacks}
use cheritest.Common.Numerals.{strtol, to_int, print_int, read_digits}
use cheritest.Common.Decimal.{strtol_blank, strtol_decimal, read_digits_one, read_digits_two}

-- The newline at the end of the buffer goes; a buffer is never empty.
unfoldable pub strip_newline : (buff : Text) → Text
strip_newline [] = []
strip_newline (c ∷ []) = if c == 0x0a then [] else c ∷ []
strip_newline (c ∷ d ∷ s) = c ∷ strip_newline (d ∷ s)

-- "%2d"
abbrev pub padded : Text → Text
padded [] = codes "  "
padded (c ∷ []) = 0x20 ∷ c ∷ []
padded (c ∷ d ∷ s) = c ∷ d ∷ s

abbrev pub is_zero : ℤ → Bool
is_zero (pos n) = n == 0
is_zero (negsuc n) = false

-- The text from the seventh character on. A shorter text ends before, and what stands there was
-- left by an earlier line or never written.
unfoldable pub after_seven : Text → Run Text
after_seven buff = if ltb (length buff) 7 then fault else ok (drop 7 buff)

-- What is printed for a line, and the core that it is about then.
unfoldable pub convert_line : (buff : Text) → (core : ℤ) → Run (Text × ℤ)
unfolding after_seven starts_with
convert_line buff core =
    if starts_with buff (codes "Reg ") && not (contains buff (codes "<-"))
    then (after_seven buff >>= λ value.
        let reg_num = to_int (strtol 10 (take 2 (drop 4 buff))) in
        ok (
          codes "DEBUG MIPS REG "
              ++ (padded (print_int reg_num []) ++ (codes " 0x" ++ (value ++ codes "\n"))),
          core,
        ))
    else if starts_with buff (codes "PC ") && is_zero core
    then (after_seven buff >>= λ value.
        ok (codes "DEBUG MIPS PC 0x" ++ (value ++ codes "\n"), core))
    else if starts_with buff (codes "Core = ")
    then (let core' = to_int (strtol 0 (drop 7 buff)) in
        ok (codes "DEBUG MIPS COREID " ++ print_int core' (codes "\n"), core'))
    else if starts_with buff (codes "DEBUG CAP")
    then ok (buff ++ codes "\n", core)
    else ok ([], core)

unfoldable pub convert_lines : List Text → (core : ℤ) → Run Text
unfolding convert_line strip_newline
convert_lines [] core = ok []
convert_lines (l ∷ ls) core = convert_line (strip_newline l) core >>= λ (out, core').
    convert_lines ls core' >>= λ rest. ok (out ++ rest)

-- The buffer has room for 1022 characters of a line.
unfoldable pub l3tosim : (stdin : Text) → Run Text
unfolding convert_lines lines
l3tosim stdin = convert_lines (lines 1022 1022 stdin) (pos 0)

-- A number below 100 in two characters.
abbrev pub TwoPlaces : (n c d : ℕ) → Type 0
TwoPlaces n c d =
    ((n < 10) × (c ≡ 0x20) × (d ≡ 0x30 + n))
    ⊎ ((n < 100) × (c ≡ 0x30 + n / 10) × (d ≡ 0x30 + n % 10))

read_number : (n c d : ℕ) → TwoPlaces n c d → to_int (strtol 10 (c ∷ d ∷ [])) ≡ pos n
unfolding to_int
read_number n c d (inl (small, e, f)) =
    ap to_int (
      ap (λ t. strtol 10 t) (pair e f)
      ∙ strtol_blank ((0x30 + n) ∷ [])
      ∙ strtol_decimal ((0x30 + n) ∷ []) (omega arith, omega arith) (rw read (omega arith))
      ∙ ap pos read)
    ∙ in_range
  where
    pair : {a b c d : ℕ} → a ≡ b → c ≡ d → a ∷ c ∷ [] ≡ b ∷ d ∷ []
    pair e f = cc

    read : read_digits 10 0 ((0x30 + n) ∷ []) ≡ n
    read = read_digits_one n small

    in_range : to_int (pos n) ≡ pos n
    in_range = ground arith
read_number n c d (inr (small, e, f)) =
    ap to_int (
      ap (λ t. strtol 10 t) (pair e f)
      ∙ strtol_decimal ((0x30 + n / 10) ∷ (0x30 + n % 10) ∷ []) (omega arith, omega arith)
          (rw read (omega arith))
      ∙ ap pos read)
    ∙ in_range
  where
    pair : {a b c d : ℕ} → a ≡ b → c ≡ d → a ∷ c ∷ [] ≡ b ∷ d ∷ []
    pair e f = cc

    read : read_digits 10 0 ((0x30 + n / 10) ∷ (0x30 + n % 10) ∷ []) ≡ n
    read = read_digits_two (n / 10) (n % 10) (omega arith) (omega arith) ∙ omega arith

    in_range : to_int (pos n) ≡ pos n
    in_range = ground arith

no_arrow :
    (n c d sep : ℕ) (value : Text)
    → TwoPlaces n c d
    → Lacks 0x2d (sep ∷ value)
    → contains (codes "Reg " ++ (c ∷ d ∷ sep ∷ value)) (codes "<-") ≡ false
unfolding contains
no_arrow n c d sep value places lacks =
    ap (λ o. elim o [ none ↦ false | some r ↦ true ])
      (strstr-Lacks 0x3c 0x2d (codes "Reg " ++ (c ∷ d ∷ sep ∷ value))
        (refl, (refl, (refl, (refl, (first places, (second places, lacks)))))))
  where
    first : TwoPlaces n c d → (c == 0x2d) ≡ false
    first (inl (small, e, f)) = ground arith
    first (inr (small, e, f)) = ground arith

    second : TwoPlaces n c d → (d == 0x2d) ≡ false
    second (inl (small, e, f)) = ground arith
    second (inr (small, e, f)) = ground arith

after_seven_lem :
    (c d sep : ℕ) (value : Text) → after_seven (codes "Reg " ++ (c ∷ d ∷ sep ∷ value)) ≡ ok value
unfolding after_seven
after_seven_lem c d sep value =
    ap (λ b. if b then fault else ok value)
      {x = ltb (length (codes "Reg " ++ (c ∷ d ∷ sep ∷ value))) 7} {y = false} (ground arith)

-- A line for a register, with its number in two characters and no minus sign anywhere, comes out
-- with the number in two places, the value after "0x", and the core unchanged.
pub convert_line-register :
    (n c d sep : ℕ) (value : Text) (core : ℤ)
    → TwoPlaces n c d
    → Lacks 0x2d (sep ∷ value)
    → convert_line (codes "Reg " ++ (c ∷ d ∷ sep ∷ value)) core
      ≡ ok (
        codes "DEBUG MIPS REG "
            ++ (padded (print_int (pos n) []) ++ (codes " 0x" ++ (value ++ codes "\n"))),
        core,
      )
unfolding convert_line
convert_line-register n c d sep value core places lacks =
    rw
      (
        no_arrow n c d sep value places lacks,
        after_seven_lem c d sep value,
        read_number n c d places,
      )
      refl
