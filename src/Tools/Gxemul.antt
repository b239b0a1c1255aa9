-- ===== src/Tools/Gxemul.antt =====
-- gxemultosim.c: the register dump of gxemul, rewritten for the test harness.
pub mod Correct
pub mod Names
use cheritest.Common.{
  ℕ, zero, suc, ◌+◌, Bool, true, false, Option, none, some, List, [], ◌∷◌, ◌++◌, set, drop,
  replicate, ◌==◌, ltb, if◌then◌else◌, Run, ok, fault, ◌>>=◌,
}
use cheritest.Common.Text.{Text, codes, starts_with, strstr, lines, concat}
use cheritest.Common.Numerals.{strtoull_hex, print_hex, print_digits}

abbrev pub reg_names : List Text
reg_names =
    codes "at = 0x"
    ∷ codes "v0 = 0x"
    ∷ codes "v1 = 0x"
    ∷ codes "a0 = 0x"
    ∷ codes "a1 = 0x"
    ∷ codes "a2 = 0x"
    ∷ codes "a3 = 0x"
    ∷ codes "t0 = 0x"
    ∷ codes "t1 = 0x"
    ∷ codes "t2 = 0x"
    ∷ codes "t3 = 0x"
    ∷ codes "t4 = 0x"
    ∷ codes "t5 = 0x"
    ∷ codes "t6 = 0x"
    ∷ codes "t7 = 0x"
    ∷ []

-- The variables that the loop over the lines updates.
pub record Dump : Type 0 where
  pub pc : ℕ
  pub reg : List ℕ

-- `while (*cp == ' ')`
unfoldable pub skip_blanks : Text → Text
skip_blanks [] = []
skip_blanks (c ∷ s) = if c == 0x20 then skip_blanks s else c ∷ s

-- The loop over the names from the one with number `j`; `cp` is null once no second value was
-- found, and `strncmp` of a null pointer is undefined.
unfoldable pub try_names : (names : List Text) (j : ℕ) (cp : Option Text) → List ℕ → Run (List ℕ)
unfolding strtoull_hex
try_names [] j cp reg = ok reg
try_names (name ∷ names) j none reg = fault
try_names (name ∷ names) j (some cp) reg = elim (starts_with cp name) [
  | false ↦ try_names names (j + 1) (some cp) reg
  | true ↦
      let reg1 = set reg (j + 1) (strtoull_hex (drop 7 cp)) in
      elim (strstr (drop 7 cp) (codes "0x")) [
        | none ↦ try_names names (j + 1) none reg1
        | some c ↦ try_names names (j + 1) (some c) (set reg1 (j + 17) (strtoull_hex (drop 2 c)))
      ]
]

-- The body of the loop, after the line is printed.
unfoldable pub read_line : (buff : Text) → Dump → Run Dump
unfolding skip_blanks
read_line buff d =
    let cp = skip_blanks (drop 5 buff) in
    if starts_with buff (codes "cpu0:")
    then if starts_with cp (codes "pc = 0x")
      then ok (record d { pc = strtoull_hex (drop 7 cp) })
      else if starts_with cp (codes "s0 = 0x")
      then ok (record d { reg = set d.reg 16 (strtoull_hex (drop 7 cp)) })
      else (try_names reg_names 0 (some cp) d.reg >>= λ reg. ok (record d { reg = reg }))
    else ok d

unfoldable pub read_lines : List Text → Dump → Run Dump
unfolding read_line
read_lines [] d = ok d
read_lines (l ∷ ls) d = read_line l d >>= read_lines ls

-- "%2d"
abbrev pub two_places : (n : ℕ) (rest : Text) → Text
two_places n rest =
    if ltb n 10 then 0x20 ∷ print_digits (n + 1) n rest else print_digits (n + 1) n rest

-- The loop that prints the registers from the one with number `i`.
unfoldable pub print_regs : (i : ℕ) → List ℕ → Text
unfolding print_digits print_hex
print_regs i [] = []
print_regs i (v ∷ vs) =
    codes "DEBUG MIPS REG "
    ++ two_places i (codes " 0x" ++ print_hex 16 v (codes "\n" ++ print_regs (i + 1) vs))

unfoldable pub print_dump : Dump → Text
unfolding print_regs
print_dump d =
    codes "======   Registers   ======\n"
    ++ (codes "DEBUG MIPS COREID 0\n"
        ++ (codes "DEBUG MIPS PC 0x" ++ print_hex 16 d.pc (codes "\n" ++ print_regs 0 d.reg)))

-- The buffer has room for 79 characters of a line.
unfoldable pub gxemultosim : (stdin : Text) → Run Text
unfolding read_lines print_dump lines
gxemultosim stdin =
    let buffs = lines 79 79 stdin in
    read_lines buffs (record { pc = 0; reg = replicate 32 0 }) >>= λ d.
    ok (concat buffs ++ print_dump d)
