-- ===== src/Tools/Gxemul/Correct.antt =====
-- gxemultosim.c: what a line of the dump sets.
use cheritest.Common.{
  ℕ, zero, suc, ◌+◌, ◌^◌, ◌<◌, ◌≡◌, refl, ap, ◌∙◌, true, false, some, [], ◌∷◌, ◌++◌, set, get_elem?,
  replicate, Run, ok, fault, ◌>>=◌, arith, ◌==◌,
}
use cheritest.Common.Text.{Text, codes, starts_with, strstr, Lacks, strstr-append, strstr-Lacks}
use cheritest.Common.Numerals.{print_hex}
use cheritest.Common.Reading.{strtoull_hex-print_hex, print_hex-append, print_hex-Lacks, Ends}
use cheritest.Tools.Gxemul.{Dump, reg_names, try_names, read_line, skip_blanks}
use cheritest.Tools.Gxemul.Names.{
  differ_text, differ_text-starts_with, try_names_found, try_names_null, IsName, is_name-IsName,
  get_elem?-is_name, reg_names-are_names,
}

skip_blanks-replicate :
    (blanks : ℕ) (c : ℕ) (s : Text)
    → (c == 0x20) ≡ false
    → skip_blanks (replicate blanks 0x20 ++ c ∷ s) ≡ c ∷ s
unfolding skip_blanks
skip_blanks-replicate zero c s h = rw (skip_blanks, h) refl
skip_blanks-replicate (suc blanks) c s h = skip_blanks-replicate blanks c s h

-- The text of a line.
abbrev pub line_of : (blanks : ℕ) (name rest : Text) → Text
line_of blanks name rest = codes "cpu0:" ++ (replicate blanks 0x20 ++ (name ++ rest))

module _ (i blanks : ℕ) (name rest : Text) (d : Dump) (e : get_elem? reg_names i ≡ some name) where
  name-IsName : IsName name
  name-IsName = is_name-IsName name (get_elem?-is_name name reg_names i reg_names-are_names e)

  after_blanks : skip_blanks (replicate blanks 0x20 ++ (name ++ rest)) ≡ name ++ rest
  after_blanks = starts name name-IsName.no_blank
    where
      starts :
          (n : Text)
          → differ_text n (codes " ") ≡ true
          → skip_blanks (replicate blanks 0x20 ++ (n ++ rest)) ≡ n ++ rest
      starts [] h = cc
      starts (c ∷ []) h = skip_blanks-replicate blanks c rest (ground arith)
      starts (c ∷ c' ∷ n) h = skip_blanks-replicate blanks c (c' ∷ n ++ rest) (ground arith)

  -- Such a line goes to the loop over the names.
  read_line-try_names :
      read_line (line_of blanks name rest) d
      ≡ (try_names reg_names 0 (some (name ++ rest)) d.reg >>= λ reg. ok (record d { reg = reg }))
  unfolding read_line starts_with
  read_line-try_names =
      rw
        (
          after_blanks,
          differ_text-starts_with name (codes "pc = 0x") rest name-IsName.no_pc,
          differ_text-starts_with name (codes "s0 = 0x") rest name-IsName.no_s0,
        )
        refl

Ends-append : (s t : Text) (c : ℕ) → Ends 16 (s ++ c ∷ []) → Ends 16 (s ++ c ∷ t)
Ends-append [] t c e = e
Ends-append (d ∷ s) t c e = e

-- A line with the name number `i`, a number of 64 bits in hexadecimal, any text without an x that
-- does not go on with a digit, and a second such number after "0x": it sets the registers `i + 1`
-- and `i + 17` to the two numbers and nothing else, and no pointer is null.
pub read_line-set :
    (i blanks : ℕ) (name : Text) (v : ℕ) (sep : Text) (w : ℕ) (rest : Text) (d : Dump)
    → get_elem? reg_names i ≡ some name
    → v < 2 ^ 64
    → w < 2 ^ 64
    → Lacks 0x78 sep
    → Ends 16 (sep ++ codes "0")
    → Ends 16 rest
    → read_line
        (line_of blanks name (print_hex 16 v (sep ++ (codes "0x" ++ print_hex 16 w rest))))
        d
      ≡ ok (record d { reg = set (set d.reg (i + 1) v) (i + 17) w })
read_line-set i blanks name v sep w rest d e hv hw lacks ends ends' =
    read_line-try_names i blanks name (print_hex 16 v (sep ++ second)) d e
    ∙ ap (λ r. r >>= λ reg. ok (record d { reg = reg }))
        (try_names_found reg_names i 0 name (print_hex 16 v (sep ++ second)) (print_hex 16 w rest)
          d.reg reg_names-are_names e found)
    ∙ sets (omega arith) (strtoull_hex-print_hex v (sep ++ second) hv (Ends-append sep _ 0x30 ends))
        (strtoull_hex-print_hex w rest hw ends')
  where
    second : Text
    second = codes "0x" ++ print_hex 16 w rest

    sets :
        {a b x x' y y' : ℕ}
        → a ≡ b
        → x ≡ x'
        → y ≡ y'
        → ◌≡◌ {A = Run Dump}
            (ok (record d { reg = set (set d.reg (a + 1) x) (a + 17) y }))
            (ok (record d { reg = set (set d.reg (b + 1) x') (b + 17) y' }))
    sets e f g = cc

    found : strstr (print_hex 16 v (sep ++ second)) (codes "0x") ≡ some second
    found =
        ap (λ t. strstr t (codes "0x")) (print_hex-append 16 v sep second)
        ∙ strstr-append 0x30 0x78 (print_hex 16 v sep) (print_hex 16 w rest)
            (print_hex-Lacks 16 v sep lacks) refl

-- A line with one of the names but the last, and no second number, has the name after it compared
-- with a null pointer.
pub read_line-fault :
    (i blanks : ℕ) (name : Text) (v : ℕ) (rest : Text) (d : Dump)
    → get_elem? reg_names i ≡ some name
    → i < 14
    → Lacks 0x78 rest
    → read_line (line_of blanks name (print_hex 16 v rest)) d ≡ fault
read_line-fault i blanks name v rest d e l lacks =
    read_line-try_names i blanks name (print_hex 16 v rest) d e
    ∙ ap (λ r. r >>= λ reg. ok (record d { reg = reg }))
        (try_names_null reg_names i 0 name (print_hex 16 v rest) d.reg reg_names-are_names e
          (omega arith)
          (strstr-Lacks 0x30 0x78 (print_hex 16 v rest) (print_hex-Lacks 16 v rest lacks)))
