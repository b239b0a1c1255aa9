-- ===== src/Tools/Fuzz.antt =====
-- fuzz_fpu.c: a raw test made of random instructions of the floating point unit.
use cheritest.Common.{
  ℕ, zero, suc, ◌+◌, ◌*◌, ◌/◌, ◌%◌, ◌^◌, ◌<◌, ◌≡◌, ◌⊎◌, ◌↔◌, refl, ap, sym, ◌∙◌, subst, List, [],
  ◌∷◌, ◌++◌, length, bit_and, bit_or, arith, drop,
}
use cheritest.Common.Text.{Text, codes}
use cheritest.Common.Numerals.{print_hex, read_digits}
use cheritest.Common.Reading.{read_digits-print_hex}
use cheritest.Common.Bits.{and_lowest, and_none}
use cheritest.Common.Masks.{low_digits}

-- `r` after the two masks.
unfoldable pub random_word : (r : ℕ) → ℕ
random_word r = bit_or (bit_and r 0x00bfffff) 0x46000000

abbrev pub line : Text → Text
line s = codes "\t\t" ++ (s ++ codes "\n")

unfoldable pub word_line : (r : ℕ) → Text
unfolding random_word print_hex
word_line r = codes "\t\t.word 0x" ++ print_hex 8 (random_word r) (codes "\n")

-- The loop, for `count` more calls of `random`, which give the numbers `random i` on.
unfoldable pub word_lines : (count : ℕ) → (random : ℕ → ℕ) → (i : ℕ) → List Text
word_lines zero random i = []
word_lines (suc count) random i = word_line (random i) ∷ word_lines count random (i + 1)

abbrev pub prologue : List Text
prologue =
    codes ".set mips64\n"
    ∷ codes ".set noreorder\n"
    ∷ codes ".set nobopt\n"
    ∷ codes ".set noat\n"
    ∷ codes "\n"
    ∷ line (codes ".text")
    ∷ line (codes ".global start")
    ∷ line (codes ".ent start")
    ∷ codes "start:\n"
    ∷ line (codes "mfc0 $t0, $12")
    ∷ line (codes "li $t1, 1 << 29")
    ∷ line (codes "or $t0, $t0, $t1")
    ∷ line (codes "mtc0 $t0, $12")
    ∷ line (codes "nop")
    ∷ line (codes "nop")
    ∷ line (codes "nop")
    ∷ []

abbrev pub epilogue : List Text
epilogue =
    line (codes "mtc0 $at, $26")
    ∷ line (codes "nop")
    ∷ line (codes "nop")
    ∷ line (codes "mtc0 $at, $23")
    ∷ codes "end:\n"
    ∷ line (codes "b end")
    ∷ line (codes "nop")
    ∷ codes ".end start\n"
    ∷ []

unfoldable pub fuzz_fpu : (random : ℕ → ℕ) → List Text
unfolding word_lines
fuzz_fpu random = prologue ++ (word_lines 1024 random 0 ++ epilogue)

-- The digits of the format.
format_digits : (x : ℕ) → bit_or (bit_and x 5) 560 ≡ 560 + (x / 4 % 2 * 4 + x % 2)
format_digits x =
    ap (λ a. bit_or a 560) kept ∙ added (x / 4 % 2) (x % 2) (omega arith) (omega arith)
  where
    kept : bit_and x 5 ≡ x / 4 % 2 * 4 + x % 2
    kept = omega (
      arith,
      and_lowest x 5,
      and_lowest (x / 2) 2,
      and_lowest (x / 2 / 2) 1,
      and_none (x / 2 / 2 / 2) (x / 2 / 2 / 2) (omega arith),
    )

    added : (a b : ℕ) → a < 2 → b < 2 → bit_or (a * 4 + b) 560 ≡ 560 + (a * 4 + b)
    added zero zero h k = refl
    added zero (suc zero) h k = refl
    added (suc zero) zero h k = refl
    added (suc zero) (suc zero) h k = refl
    added (suc (suc a)) b h k = absurd (omega arith)
    added a (suc (suc b)) h k = absurd (omega arith)

-- An instruction of the coprocessor 1 with one of the formats S, D, W and L, whatever the rest.
pub record IsFloat (word : ℕ) : Type 0 where
  pub opcode : word / 2 ^ 26 ≡ 0x11
  pub format :
      (word / 2 ^ 21 % 32 ≡ 16)
      ⊎ ((word / 2 ^ 21 % 32 ≡ 17) ⊎ ((word / 2 ^ 21 % 32 ≡ 20) ⊎ (word / 2 ^ 21 % 32 ≡ 21)))

random_word_digits :
    (r : ℕ)
    → random_word r ≡ (560 + (r / 2 ^ 21 / 4 % 2 * 4 + r / 2 ^ 21 % 2)) * 2 ^ 21 + r % 2 ^ 21
unfolding random_word
random_word_digits r =
    low_digits 21 r 5 560 ∙ ap (λ n. n * 2 ^ 21 + r % 2 ^ 21) (format_digits (r / 2 ^ 21))

random_word-IsFloat : (r : ℕ) → IsFloat (random_word r)
random_word-IsFloat r = record {
  opcode = omega (arith, random_word_digits r);
  format = omega (arith, random_word_digits r);
}

random_word_self : (w : ℕ) → IsFloat w → random_word w ≡ w
random_word_self w h = omega (arith, random_word_digits w, h.opcode, h.format)

-- The words are exactly the instructions of the coprocessor 1 with the formats S, D, W and L: each
-- word is one, and each of these is the word for a number below 2 ^ 31, which `random` may return.
pub random_word_range : (w : ℕ) → IsFloat w ↔ ((r : ℕ) × (r < 2 ^ 31) × (random_word r ≡ w))
random_word_range w = (
  λ h. (w, omega (arith, h.opcode), random_word_self w h),
  λ (r, _, e). subst IsFloat e (random_word-IsFloat r),
)

-- What the assembler reads from such a line.
abbrev pub AllFloats : List Text → Type 0
AllFloats [] = Unit
AllFloats (l ∷ ls) = IsFloat (read_digits 16 0 (drop 10 l)) × AllFloats ls

word_line-IsFloat : (r : ℕ) → IsFloat (read_digits 16 0 (drop 10 (word_line r)))
unfolding word_line
word_line-IsFloat r =
    subst IsFloat
      (sym (
        read_digits-print_hex 8 (random_word r) (codes "\n") (omega (arith, random_word_digits r))
          refl))
      (random_word-IsFloat r)

word_lines-AllFloats : (count : ℕ) (random : ℕ → ℕ) (i : ℕ) → AllFloats (word_lines count random i)
unfolding word_lines
word_lines-AllFloats zero random i = tt
word_lines-AllFloats (suc count) random i =
    (word_line-IsFloat (random i), word_lines-AllFloats count random (i + 1))

word_lines_length :
    (count : ℕ) (random : ℕ → ℕ) (i : ℕ) → length (word_lines count random i) ≡ count
unfolding word_lines
word_lines_length zero random i = refl
word_lines_length (suc count) random i = ap suc (word_lines_length count random (i + 1))

-- Whatever `random` returns, the test consists of the prologue, 1024 lines whose hexadecimal words
-- are instructions of the coprocessor 1 with one of the formats S, D, W and L, and the epilogue.
pub fuzz_fpu-AllFloats :
    (random : ℕ → ℕ)
    → (ls : List Text) × (fuzz_fpu random ≡ prologue ++ (ls ++ epilogue))
      × (length ls ≡ 1024)
      × AllFloats ls
unfolding fuzz_fpu
fuzz_fpu-AllFloats random = (
  word_lines 1024 random 0,
  refl,
  word_lines_length 1024 random 0,
  word_lines-AllFloats 1024 random 0,
)
